-- ===== src/Cache/Disk/Manifest/Lines.antt =====
-- The lines of a manifest are read back as the keys and values that were printed.
use mathlib.Core.List.{append-nil, append_assoc}
use rustorr.Base.{◌≡◌, refl, sym, ap, ◌∙◌, subst, none, some, List, [], ◌∷◌, ◌++◌, arith, All}
use rustorr.Base.Map.{Map, lookup, insert, AreDistinct}
use rustorr.Text.{Text, text_eq_iff, text_has_eq, lines, split_once}
use rustorr.Text.Parts.{Lacks, Lacks-append, IsLine, lines-append, split_once-append}
use rustorr.Cache.Disk.Manifest.{line, parse_lines}

-- The text of a list of keys and values.
unfoldable pub render : Map Text Text → Text
unfolding line
render [] = []
render ((key, value) ∷ m) = line key value ++ render m

-- A key and a value that fit a line, the key without `=`.
abbrev pub IsEntry : Text × Text → Type 0
IsEntry e = Lacks b'=' e.0 × IsLine e.0 × IsLine e.1

line_lem : (key value : Text) → IsEntry (key, value) → IsLine (key ++ b'=' ∷ value)
line_lem key value h = (
  Lacks-append 10 key (b'=' ∷ value) h.1.0 (refl, h.2.0),
  Lacks-append 13 key (b'=' ∷ value) h.1.1 (refl, h.2.1),
)

lines-line :
    (key value rest : Text)
    → IsEntry (key, value)
    → lines (line key value ++ rest) ≡ (key ++ b'=' ∷ value) ∷ lines rest
unfolding line
lines-line key value rest h =
    ap lines (simp append_assoc) ∙ lines-append (key ++ b'=' ∷ value) rest (line_lem key value h)

-- A key that is new is put at the end.
insert_new :
    (key value : Text) (m : Map Text Text)
    → lookup key m ≡ none
    → insert key value m ≡ m ++ (key, value) ∷ []
unfolding insert lookup
insert_new key value [] h = refl
insert_new key value ((k, v) ∷ m) h = ground (arith, h, insert_new key value m)

lookup-append_none : (k : Text) (m n : Map Text Text) → lookup k (m ++ n) ≡ none → lookup k n ≡ none
unfolding lookup
lookup-append_none k [] n h = h
lookup-append_none k ((j, v) ∷ m) n h = ground (arith, h, lookup-append_none k m n)

-- No key occurs in both lists.
lookup-prefix :
    (key value : Text) (m rest : Map Text Text)
    → AreDistinct (m ++ (key, value) ∷ rest)
    → lookup key m ≡ none
unfolding lookup
lookup-prefix key value [] rest d = refl
lookup-prefix key value ((k, v) ∷ m) rest d =
    let other = lookup-append_none k m ((key, value) ∷ rest) d.0 in
    ground (arith, other, text_eq_iff k key, text_eq_iff key k, lookup-prefix key value m rest d.1)

parse_lines-cons :
    (l key value : Text) (ls : List Text) (done : Map Text Text)
    → split_once b'=' l ≡ some (key, value)
    → lookup key done ≡ none
    → parse_lines (l ∷ ls) done ≡ parse_lines ls (insert key value done)
unfolding parse_lines
parse_lines-cons l key value ls done p q = ground (arith, p, q)

lines_nil : lines [] ≡ []
unfolding lines
lines_nil = refl

pub parse_lines-render :
    (m done : Map Text Text)
    → All IsEntry m
    → AreDistinct (done ++ m)
    → parse_lines (lines (render m)) done ≡ some (done ++ m)
unfolding render
parse_lines-render [] done h d =
    rw lines_nil (unfold parse_lines in ap some (sym (append-nil done)))
parse_lines-render ((key, value) ∷ m) done h d =
    let fresh = lookup-prefix key value done m d in
    let regroup : done ++ (key, value) ∷ m ≡ (done ++ (key, value) ∷ []) ++ m = simp append_assoc in
    let ih =
      parse_lines-render m (done ++ (key, value) ∷ []) h.1 (subst (λ l. AreDistinct l) regroup d) in
    ap (λ ls. parse_lines ls done) (lines-line key value (render m) h.0)
    ∙ parse_lines-cons (key ++ b'=' ∷ value) key value (lines (render m)) done
        (split_once-append b'=' key value h.0.0) fresh
    ∙ rw (insert_new key value done fresh, regroup) ih
