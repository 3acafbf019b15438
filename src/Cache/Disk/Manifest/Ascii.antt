-- ===== src/Cache/Disk/Manifest/Ascii.antt =====
-- A manifest is ASCII: keys, digits and separators.
use rustorr.Base.{
  ℕ, zero, suc, ◌+◌, ◌/◌, List, [], ◌∷◌, ◌++◌, Bool-cases, inl, inr, arith, map, ltb,
}
use rustorr.Text.{Text, join, decimal, to_string}
use rustorr.Cache.Disk.FileSystem.{IsAscii}
use rustorr.Cache.Extents.{Extents}
use rustorr.Cache.Extents.Spans.{Span}
use rustorr.Cache.Disk.Manifest.{
  DiskTorrent, manifest, line, extents_lines, extents_key, span_text, spans_text, joined_numbers,
  all_lengths, completed_from, version_key, piece_length_key, files_key, pieces_key, extents_prefix,
}

append-IsAscii : (xs ys : Text) → IsAscii xs → IsAscii ys → IsAscii (xs ++ ys)
append-IsAscii [] ys a b = b
append-IsAscii (x ∷ xs) ys a b = (a.0, append-IsAscii xs ys a.1 b)

decimal-IsAscii : (rounds n : ℕ) → IsAscii (decimal rounds n)
unfolding decimal
decimal-IsAscii zero n = tt
decimal-IsAscii (suc rounds) n = elim (Bool-cases (ltb n 10)) [
  | inl e ↦ rw e (omega arith, tt)
  | inr e ↦ rw e (
      append-IsAscii (decimal rounds (n / 10)) _ (decimal-IsAscii rounds (n / 10))
        (omega arith, tt))
]

to_string-IsAscii : (n : ℕ) → IsAscii (to_string n)
unfolding to_string
to_string-IsAscii n = decimal-IsAscii 20 n

join-IsAscii :
    {A : Type 0} (f : A → Text) (xs : List A)
    → ((x : A) → IsAscii (f x))
    → IsAscii (join b',' (map f xs))
unfolding join
join-IsAscii f [] h = tt
join-IsAscii f (x ∷ []) h = h x
join-IsAscii f (x ∷ y ∷ xs) h =
    append-IsAscii (f x) _ (h x) (omega arith, join-IsAscii f (y ∷ xs) h)

line-IsAscii : (key value : Text) → IsAscii key → IsAscii value → IsAscii (line key value)
unfolding line
line-IsAscii key value a b =
    append-IsAscii key _ a (omega arith, append-IsAscii value _ b (omega arith, tt))

span_text-IsAscii : (s : Span) → IsAscii (span_text s)
unfolding span_text
span_text-IsAscii s =
    append-IsAscii (to_string s.start) _ (to_string-IsAscii s.start)
      (omega arith, to_string-IsAscii s.end)

extents_lines-IsAscii : (i : ℕ) (xs : List Extents) → IsAscii (extents_lines i xs)
unfolding extents_lines extents_key spans_text
extents_lines-IsAscii i [] = tt
extents_lines-IsAscii i (x ∷ xs) =
    append-IsAscii (line (extents_key i) (spans_text x)) _
      (line-IsAscii (extents_key i) (spans_text x)
        (append-IsAscii extents_prefix (to_string i) (ground arith) (to_string-IsAscii i))
        (join-IsAscii span_text x.spans span_text-IsAscii))
      (extents_lines-IsAscii (i + 1) xs)

pub manifest-IsAscii : (t : DiskTorrent) → IsAscii (manifest t)
unfolding manifest joined_numbers
manifest-IsAscii t =
    let numbers : (ns : List ℕ) → IsAscii (joined_numbers ns) =
      λ ns. join-IsAscii to_string ns to_string-IsAscii in
    let piece_length = line piece_length_key (to_string t.layout.piece_length) in
    let files = line files_key (joined_numbers (all_lengths t.layout)) in
    let pieces = line pieces_key (joined_numbers (completed_from 0 t.completed)) in
    let extents = extents_lines 0 t.extents in
    append-IsAscii (line version_key (b'1' ∷ [])) (piece_length ++ (files ++ (pieces ++ extents)))
      (line-IsAscii version_key (b'1' ∷ []) (ground arith) (ground arith))
      (append-IsAscii piece_length (files ++ (pieces ++ extents))
        (line-IsAscii piece_length_key (to_string t.layout.piece_length) (ground arith)
          (to_string-IsAscii t.layout.piece_length))
        (append-IsAscii files (pieces ++ extents)
          (line-IsAscii files_key (joined_numbers (all_lengths t.layout)) (ground arith)
            (numbers (all_lengths t.layout)))
          (append-IsAscii pieces extents
            (line-IsAscii pieces_key (joined_numbers (completed_from 0 t.completed)) (ground arith)
              (numbers (completed_from 0 t.completed)))
            (extents_lines-IsAscii 0 t.extents))))
