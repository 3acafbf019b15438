-- ===== src/Cache/Layout/Tests.antt =====
-- A layout that is built, and the theorems about layouts at it.
use rustorr.Base.{◌^◌, ◌≡◌, refl, [], ◌∷◌, ok, err}
use rustorr.Domain.Hash.{InfoHash}
use rustorr.Domain.Index.{FileIndex}
use rustorr.Domain.Range.{ByteRange}
use rustorr.Cache.Error.{invalid_layout, too_many_pieces}
use rustorr.Cache.Layout.{TorrentLayout, new, sum_checked, div_ceil, to_u32}

abbrev two_files : TorrentLayout
two_files = record {
  piece_length = 100;
  file_lengths = 150 ∷ 60 ∷ [];
  total_length = 210;
  piece_count = 3;
}

builds : new 100 (150 ∷ 60 ∷ []) ≡ ok two_files
unfolding new sum_checked div_ceil to_u32
builds = refl

too_many : new 1 (2 ^ 32 ∷ []) ≡ err (invalid_layout too_many_pieces)
unfolding new sum_checked div_ceil to_u32
too_many = refl

abbrev hash : InfoHash
hash = record { bytes = 1 ∷ [] }

abbrev second : FileIndex
second = record { index = 1 }

abbrev tail_range : ByteRange
tail_range = record { start = 50; end = 60 }
