-- ===== src/Cache/Disk/Manifest/Entries.antt =====
-- A manifest as a list of keys and values: it is printed line by line, and no key comes twice.
use rustorr.Base.{
  ℕ, ◌+◌, ◌<◌, ◌≡◌, refl, ap, true, false, none, some, List, [], ◌∷◌, ◌++◌, map, arith, All, ◌==◌,
  Bool-cases, inl, inr, u64_mod, length, ◌&&◌,
}
use rustorr.Base.Map.{Map, lookup, remove, AreDistinct}
use rustorr.Text.{Text, text_eq, text_eq_iff, text_has_eq, to_string, is_digit}
use rustorr.Text.Numbers.{to_string_injective}
use rustorr.Text.Parts.{Lacks, Lacks-append, Lacks-join, IsLine, lacks, lacks_sound}
use rustorr.Cache.Extents.{Extents}
use rustorr.Cache.Disk.Manifest.{
  extents_prefix, DiskTorrent, manifest, line, joined_numbers, all_lengths, completed_from,
  spans_text, span_text, extents_key, extents_lines, version_key, piece_length_key, files_key,
  pieces_key,
}
use rustorr.Cache.Disk.Manifest.Lines.{render, IsEntry}
use rustorr.Cache.Disk.Manifest.Fields.{map-Lacks, span_texts-Lacks, to_string-Lacks}

unfoldable pub extents_entries : ℕ → List Extents → Map Text Text
extents_entries i [] = []
extents_entries i (x ∷ xs) = (extents_key i, spans_text x) ∷ extents_entries (i + 1) xs

remove_absent : (k : Text) (m : Map Text Text) → lookup k m ≡ none → remove k m ≡ m
unfolding remove lookup
remove_absent k [] h = refl
remove_absent k ((j, v) ∷ m) h = ground (arith, h, remove_absent k m)

pub lookup_head : (k v : Text) (m : Map Text Text) → lookup k ((k, v) ∷ m) ≡ some v
unfolding lookup
lookup_head k v m = rw ((text_eq_iff k k).1 refl) refl

pub remove_head : (k v : Text) (m : Map Text Text) → lookup k m ≡ none → remove k ((k, v) ∷ m) ≡ m
unfolding remove
remove_head k v m h = rw ((text_eq_iff k k).1 refl) (remove_absent k m h)

unfoldable pub entries : DiskTorrent → Map Text Text
entries t =
    (version_key, b'1' ∷ [])
    ∷ (piece_length_key, to_string t.layout.piece_length)
    ∷ (files_key, joined_numbers (all_lengths t.layout))
    ∷ (pieces_key, joined_numbers (completed_from 0 t.completed))
    ∷ extents_entries 0 t.extents

extents_lines-render :
    (i : ℕ) (xs : List Extents) → extents_lines i xs ≡ render (extents_entries i xs)
unfolding extents_lines extents_entries render
extents_lines-render i [] = refl
extents_lines-render i (x ∷ xs) =
    ap (λ s. line (extents_key i) (spans_text x) ++ s) (extents_lines-render (i + 1) xs)

pub manifest-render : (t : DiskTorrent) → manifest t ≡ render (entries t)
unfolding manifest entries render
manifest-render t = rw (extents_lines-render 0 t.extents) refl

-- The keys of files differ from one another and from the other keys.
text_eq-extents_key :
    (i j : ℕ) → i < j → j < u64_mod → text_eq (extents_key j) (extents_key i) ≡ false
unfolding extents_key text_eq
text_eq-extents_key i j h k = elim (Bool-cases (text_eq (to_string j) (to_string i))) [
  | inl e ↦
      let same =
        to_string_injective j i k (omega arith) ((text_eq_iff (to_string j) (to_string i)).0 e) in
      absurd (omega (arith, same))
  | inr e ↦ e
]

lookup-extents_key :
    (i j : ℕ) (xs : List Extents)
    → i < j
    → j + length xs < u64_mod
    → lookup (extents_key i) (extents_entries j xs) ≡ none
unfolding extents_entries lookup
lookup-extents_key i j [] h k = refl
lookup-extents_key i j (x ∷ xs) h k =
    rw (text_eq-extents_key i j h (omega arith))
      (lookup-extents_key i (j + 1) xs (omega arith) (omega arith))

extents_entries-AreDistinct :
    (i : ℕ) (xs : List Extents) → i + length xs < u64_mod → AreDistinct (extents_entries i xs)
unfolding extents_entries
extents_entries-AreDistinct i [] h = tt
extents_entries-AreDistinct i (x ∷ xs) h = (
  lookup-extents_key i (i + 1) xs (omega arith) (omega arith),
  extents_entries-AreDistinct (i + 1) xs (omega arith),
)

-- A key that starts with another letter.
lookup-other_key :
    (c : ℕ) (cs : Text) (i : ℕ) (xs : List Extents)
    → (b'e' == c) ≡ false
    → lookup (c ∷ cs) (extents_entries i xs) ≡ none
unfolding extents_entries lookup extents_key text_eq
lookup-other_key c cs i [] h = refl
lookup-other_key c cs i (x ∷ xs) h = rw h (lookup-other_key c cs (i + 1) xs h)

pub entries-AreDistinct : (t : DiskTorrent) → length t.extents < u64_mod → AreDistinct (entries t)
unfolding entries lookup text_eq
entries-AreDistinct t h =
    let other =
      λ (c : ℕ) (cs : Text) (e : (b'e' == c) ≡ false). lookup-other_key c cs 0 t.extents e in
    (
      other _ _ refl,
      (
        other _ _ refl,
        (other _ _ refl, (other _ _ refl, extents_entries-AreDistinct 0 t.extents (omega arith))),
      ),
    )

joined_numbers-Lacks :
    (c : ℕ) (ns : List ℕ) → is_digit c ≡ false → (b',' == c) ≡ false → Lacks c (joined_numbers ns)
unfolding joined_numbers
joined_numbers-Lacks c ns h k = Lacks-join c b',' (map to_string ns) k (map-Lacks c ns h)

joined_numbers-IsLine : (ns : List ℕ) → IsLine (joined_numbers ns)
unfolding is_digit
joined_numbers-IsLine ns =
    (joined_numbers-Lacks 10 ns refl refl, joined_numbers-Lacks 13 ns refl refl)

spans_text-Lacks :
    (c : ℕ) (x : Extents)
    → is_digit c ≡ false
    → (b',' == c) ≡ false
    → (b'-' == c) ≡ false
    → Lacks c (spans_text x)
unfolding spans_text
spans_text-Lacks c x h k d =
    Lacks-join c b',' (map span_text x.spans) k (span_texts-Lacks c x.spans h d)

extents_key-Lacks :
    (c i : ℕ) → is_digit c ≡ false → Lacks c extents_prefix → Lacks c (extents_key i)
unfolding extents_key
extents_key-Lacks c i h k = Lacks-append c extents_prefix (to_string i) k (to_string-Lacks c i h)

extents_key-IsEntry : (i : ℕ) (x : Extents) → IsEntry (extents_key i, spans_text x)
unfolding is_digit
extents_key-IsEntry i x =
    let key = λ (c : ℕ) (h : is_digit c ≡ false) (k : lacks c extents_prefix ≡ true).
      extents_key-Lacks c i h (lacks_sound c extents_prefix k) in
    (
      key b'=' refl refl,
      (key 10 refl refl, key 13 refl refl),
      (spans_text-Lacks 10 x refl refl refl, spans_text-Lacks 13 x refl refl refl),
    )

extents_entries-IsEntry : (i : ℕ) (xs : List Extents) → All IsEntry (extents_entries i xs)
unfolding extents_entries
extents_entries-IsEntry i [] = tt
extents_entries-IsEntry i (x ∷ xs) = (extents_key-IsEntry i x, extents_entries-IsEntry (i + 1) xs)

-- A key that is given.
key-IsEntry :
    (key value : Text)
    → (lacks b'=' key && (lacks 10 key && lacks 13 key)) ≡ true
    → IsLine value
    → IsEntry (key, value)
key-IsEntry key value h v = (
  lacks_sound b'=' key (ground (arith, h)),
  (lacks_sound 10 key (ground (arith, h)), lacks_sound 13 key (ground (arith, h))),
  v,
)

to_string-IsLine : (n : ℕ) → IsLine (to_string n)
unfolding is_digit
to_string-IsLine n = (to_string-Lacks 10 n refl, to_string-Lacks 13 n refl)

pub entries-IsEntry : (t : DiskTorrent) → All IsEntry (entries t)
unfolding entries
entries-IsEntry t = (
  key-IsEntry version_key (b'1' ∷ []) refl ((refl, tt), (refl, tt)),
  (
    key-IsEntry piece_length_key _ refl (to_string-IsLine t.layout.piece_length),
    (
      key-IsEntry files_key _ refl (joined_numbers-IsLine (all_lengths t.layout)),
      (
        key-IsEntry pieces_key _ refl (joined_numbers-IsLine (completed_from 0 t.completed)),
        extents_entries-IsEntry 0 t.extents,
      ),
    ),
  ),
)
