-- ===== src/Cache/Layout/Laws.antt =====
-- What a layout that was built promises, and the range check.
use rustorr.Base.{
  ℕ, zero, suc, ◌+◌, ◌*◌, ◌≤◌, ◌<◌, ◌≡◌, ◌↔◌, none, some, List, [], ◌∷◌, arith, ltb, if◌then◌else◌,
  u32_mod, u64_mod, ok, err, get_elem?, Option-cases, inl, inr,
}
use rustorr.Domain.Hash.{InfoHash}
use rustorr.Domain.Index.{FileIndex}
use rustorr.Domain.Range.{ByteRange, from_start_len, fits_within}
use rustorr.Cache.Error.{unknown_file}
use rustorr.Cache.Layout.{
  TorrentLayout, new, sum_checked, div_ceil, to_u32, file_length, check_range,
}

unfoldable pub sum : List ℕ → ℕ
sum [] = 0
sum (n ∷ ns) = n + sum ns

-- The checked sum is the sum, or there is none and the sum does not fit a `u64`.
pub sum_checked-eq :
    (a : ℕ) (ns : List ℕ)
    → a < u64_mod
    → sum_checked a ns ≡ (if ltb (a + sum ns) u64_mod then some (a + sum ns) else none)
unfolding sum_checked sum
sum_checked-eq a [] h = ground arith
sum_checked-eq a (n ∷ ns) h = ground (arith, sum_checked-eq (a + n) ns)

-- What `new` establishes: the total is the sum of the lengths and fits a `u64`; the pieces cover it,
-- all but the last are full, and their number fits a `u32`.
pub record IsLayout (l : TorrentLayout) : Type 0 where
  pub positive : 0 < l.piece_length
  pub total : l.total_length ≡ sum l.file_lengths
  pub total_in_word : l.total_length < u64_mod
  pub pieces_in_word : l.piece_count < u32_mod
  pub enough : l.total_length ≤ l.piece_count * l.piece_length
  pub tight : l.piece_count * l.piece_length < l.total_length + l.piece_length

div_ceil-bounds : (a b : ℕ) → 0 < b → (a ≤ div_ceil a b * b) × (div_ceil a b * b < a + b)
unfolding div_ceil
div_ceil-bounds a b h = grind arith

to_u32-some : (n m : ℕ) → to_u32 n ≡ some m → (m ≡ n) × (m < u32_mod)
unfolding to_u32
to_u32-some n m e = ground arith

new_fields :
    (p total count : ℕ) (fs : List ℕ) (l : TorrentLayout)
    → sum_checked 0 fs ≡ some total
    → to_u32 (div_ceil total p) ≡ some count
    → new p fs ≡ ok l
    → (0 < p)
      × (l.piece_length ≡ p)
      × (l.file_lengths ≡ fs)
      × (l.total_length ≡ total)
      × (l.piece_count ≡ count)
unfolding new
new_fields p total count fs l q w e = ground (arith, q, w)

-- A layout that is built has the lengths it was given, and the promises of `IsLayout`.
pub new-IsLayout :
    (piece_length : ℕ) (file_lengths : List ℕ) (l : TorrentLayout)
    → new piece_length file_lengths ≡ ok l
    → (l.piece_length ≡ piece_length) × (l.file_lengths ≡ file_lengths) × IsLayout l
unfolding new
new-IsLayout p fs l e = elim (Option-cases (sum_checked 0 fs)) [
  | inl q ↦ ground (arith, q)
  | inr (total, q) ↦ elim (Option-cases (to_u32 (div_ceil total p))) [
    | inl w ↦ ground (arith, q, w)
    | inr (count, w) ↦ built total count q w
  ]
]
  where
    built :
        (total count : ℕ)
        → sum_checked 0 fs ≡ some total
        → to_u32 (div_ceil total p) ≡ some count
        → (l.piece_length ≡ p) × (l.file_lengths ≡ fs) × IsLayout l
    built total count q w =
        let fields = new_fields p total count fs l q w e in
        let sum_fits = sum_checked-eq 0 fs (omega arith) in
        let counted = to_u32-some (div_ceil total p) count w in
        let bounds = div_ceil-bounds total p fields.0 in
        (
          fields.1,
          fields.2,
          record {
            positive = omega (arith, fields);
            total = ground (arith, sum_fits, fields, q);
            total_in_word = ground (arith, sum_fits, fields, q);
            pieces_in_word = omega (arith, fields, counted);
            enough = rw (fields.4, fields.1, fields.3, counted.0) bounds.0;
            tight = rw (fields.4, fields.1, fields.3, counted.0) bounds.1;
          },
        )

get_elem?-le-sum : (ns : List ℕ) (i n : ℕ) → get_elem? ns i ≡ some n → n ≤ sum ns
unfolding sum
get_elem?-le-sum [] i n e = ground arith
get_elem?-le-sum (m ∷ ns) zero n e = ground arith
get_elem?-le-sum (m ∷ ns) (suc i) n e = omega (arith, get_elem?-le-sum ns i n e)

check_range-accepts :
    (l : TorrentLayout) (t : InfoHash) (f : FileIndex) (offset n file_len : ℕ) (r : ByteRange)
    → file_length l f ≡ some file_len
    → file_len < u64_mod
    → (check_range l t f offset n ≡ ok r)
      ↔ ((offset + n ≤ file_len) × (r ≡ record { start = offset; end = offset + n }))
unfolding check_range from_start_len fits_within
check_range-accepts l t f offset n file_len r q h = (λ e. ground (arith, q), λ e. ground (arith, q))

check_range-unknown :
    (l : TorrentLayout) (t : InfoHash) (f : FileIndex) (offset n : ℕ)
    → file_length l f ≡ none
    → check_range l t f offset n ≡ err (unknown_file t f)
unfolding check_range
check_range-unknown l t f offset n q = ground (arith, q)

pub file_length-in_word :
    (l : TorrentLayout) (f : FileIndex) (n : ℕ)
    → IsLayout l
    → file_length l f ≡ some n
    → n < u64_mod
unfolding file_length
file_length-in_word l f n v q =
    omega (arith, get_elem?-le-sum l.file_lengths f.index n q, v.total, v.total_in_word)

-- On a layout that keeps its promises, the check accepts exactly the bytes that lie in a file of the
-- torrent, and returns their range.
pub check_range_iff :
    (l : TorrentLayout) (t : InfoHash) (f : FileIndex) (offset n : ℕ) (r : ByteRange)
    → IsLayout l
    → (check_range l t f offset n ≡ ok r) ↔ (
        (file_len : ℕ) × (file_length l f ≡ some file_len)
        × (offset + n ≤ file_len)
        × (r ≡ record { start = offset; end = offset + n }))
check_range_iff l t f offset n r v = (
  λ e. elim (Option-cases (file_length l f)) [
    | inl q ↦ cc (check_range-unknown l t f offset n q)
    | inr (m, q) ↦
        let (h, k) =
          (check_range-accepts l t f offset n m r q (file_length-in_word l f m v q)).0 e in
        (m, q, h, k)
  ],
  λ (m, q, h, k).
      (check_range-accepts l t f offset n m r q (file_length-in_word l f m v q)).1 (h, k),
)
