-- ===== src/Cache/Layout.antt =====
-- `TorrentLayout` of crates/rustorr-cache/src/layout.rs
pub mod Laws
mod Tests
use rustorr.Base.{
  ℕ, ◌+◌, ◌/◌, ◌%◌, ◌≡◌, Bool, true, false, Option, none, some, List, [], ◌∷◌, ltb, leb, ◌==◌,
  if◌then◌else◌, u32_mod, checked_add, Result, ok, err, ◌>>=◌, ok_or, map_err, length, get_elem?,
  take, ◌&&◌,
}
use rustorr.Domain.Hash.{InfoHash}
use rustorr.Domain.Index.{FileIndex}
use rustorr.Domain.Range.{ByteRange, from_start_len, fits_within}
use rustorr.Cache.Error.{
  CacheError, LayoutFault, unknown_file, out_of_bounds, invalid_layout, domain, zero_piece_length,
  total_overflows, too_many_pieces,
}

pub record TorrentLayout : Type 0 where
  pub piece_length : ℕ
  pub file_lengths : List ℕ
  pub total_length : ℕ
  pub piece_count : ℕ

-- `try_fold(total, checked_add)`
unfoldable pub sum_checked : ℕ → List ℕ → Option ℕ
sum_checked total [] = some total
sum_checked total (n ∷ ns) = elim (checked_add total n) [
  | none ↦ none
  | some next ↦ sum_checked next ns
]

-- `div_ceil` of a non-zero divisor
unfoldable pub div_ceil : ℕ → ℕ → ℕ
div_ceil a b = if ltb 0 (a % b) then a / b + 1 else a / b

-- `u32::try_from`
unfoldable pub to_u32 : ℕ → Option ℕ
to_u32 n = if ltb n u32_mod then some n else none

unfoldable pub new : ℕ → List ℕ → Result CacheError TorrentLayout
new piece_length file_lengths =
    if piece_length == 0 then err (invalid_layout zero_piece_length) else do
      total ← ok_or (sum_checked 0 file_lengths) (invalid_layout total_overflows)
      count ← ok_or (to_u32 (div_ceil total piece_length)) (invalid_layout too_many_pieces)
      ok (record {
        piece_length = piece_length;
        file_lengths = file_lengths;
        total_length = total;
        piece_count = count;
      })

unfoldable pub file_count : TorrentLayout → ℕ
file_count l = length l.file_lengths

unfoldable pub file_length : TorrentLayout → FileIndex → Option ℕ
file_length l f = get_elem? l.file_lengths f.index

-- The slice `..index` is there up to the number of files.
unfoldable pub file_offset : TorrentLayout → FileIndex → Option ℕ
file_offset l f =
    if leb f.index (length l.file_lengths)
    then sum_checked 0 (take f.index l.file_lengths)
    else none

unfoldable pub check_range :
    TorrentLayout → InfoHash → FileIndex → ℕ → ℕ → Result CacheError ByteRange
check_range l torrent file offset len = do
  file_len ← ok_or (file_length l file) (unknown_file torrent file)
  range ← map_err domain (from_start_len offset len)
  if fits_within range file_len then ok range else err (out_of_bounds torrent file range file_len)

lengths_eq : List ℕ → List ℕ → Bool
lengths_eq [] [] = true
lengths_eq (x ∷ xs) (y ∷ ys) = x == y && lengths_eq xs ys
lengths_eq _ _ = false

-- The derived `==`.
unfoldable pub layout_eq : TorrentLayout → TorrentLayout → Bool
unfolding lengths_eq
layout_eq a b =
    a.piece_length == b.piece_length
    && (lengths_eq a.file_lengths b.file_lengths
        && (a.total_length == b.total_length && a.piece_count == b.piece_count))
