-- ===== src/Cache/Memory/Tests.antt =====
-- A store with one torrent, and the theorems about the memory store at it.
use rustorr.Base.{
  ℕ, ◌+◌, ◌-◌, ◌≡◌, ◌↔◌, refl, List, [], ◌∷◌, some, ok, err, arith, get_or, ◌==◌, leb, ltb, ◌&&◌,
  if◌then◌else◌, replicate, wrapping_sub, wrapping_add,
}
use rustorr.Base.Map.{lookup, insert}
use rustorr.Domain.Hash.{InfoHash, hash_eq, info_hash_eq}
use rustorr.Domain.Index.{FileIndex}
use rustorr.Domain.Range.{from_start_len, fits_within, is_empty}
use rustorr.Cache.Error.{out_of_bounds}
use rustorr.Cache.Extents
use rustorr.Cache.Extents.Spans.{last_at_most, between}
use rustorr.Cache.Layout.{TorrentLayout, check_range, file_length, file_count}
use rustorr.Cache.Layout.Laws.{IsLayout, sum}
use rustorr.Cache.Memory.Blocks.{nat_eq}
use rustorr.Cache.Memory.Contents.{IsStore, stored, new-IsStore, open_torrent-IsStore, stored-write}
use rustorr.Cache.Memory.Reads.{AreStored, read-iff-AreStored, read-write}
use rustorr.Cache.Memory.{
  MemoryStore, Torrent, new, open_torrent, write, write_torrent, write_file, read, empty_file,
}

abbrev hash : InfoHash
hash = record { bytes = 1 ∷ [] }

abbrev first : FileIndex
first = record { index = 0 }

abbrev layout : TorrentLayout
layout = record {
  piece_length = 100;
  file_lengths = 150 ∷ 60 ∷ [];
  total_length = 210;
  piece_count = 3;
}

layout-IsLayout : IsLayout layout
unfolding sum
layout-IsLayout = omega arith

abbrev opened : MemoryStore
opened = (open_torrent new hash layout).1

opened-IsStore : IsStore opened
opened-IsStore = open_torrent-IsStore new hash layout new-IsStore layout-IsLayout

abbrev data_bytes : List ℕ
data_bytes = 7 ∷ 8 ∷ 9 ∷ []

abbrev after : MemoryStore
after = (write opened hash first 140 data_bytes).1

writes : write opened hash first 140 data_bytes ≡ (ok 3, after)
unfolding write open_torrent new lookup insert hash_eq check_range file_length from_start_len
    fits_within write_torrent write_file Extents.insert Extents.added_bytes is_empty last_at_most
    between wrapping_sub wrapping_add empty_file Extents.empty file_count
writes = refl

refused :
    write opened hash first 149 data_bytes
    ≡ (err (out_of_bounds hash first (record { start = 149; end = 152 }) 150), opened)
unfolding write open_torrent new lookup insert hash_eq check_range file_length from_start_len
    fits_within
refused = refl

read-write_example : read after hash first 140 3 ≡ ok data_bytes
read-write_example = read-write opened after hash first 140 3 data_bytes opened-IsStore writes

stored-write_example :
    IsStore after
    × (stored after hash first 141 ≡ (
        if hash_eq hash hash && ((0 == 0) && (leb 140 141 && ltb 141 (140 + 3)))
        then some (get_or data_bytes (141 - 140) 0)
        else stored opened hash first 141))
stored-write_example =
    stored-write opened after hash hash first first 140 3 141 data_bytes opened-IsStore writes

abbrev opened_torrent : Torrent
opened_torrent = record { layout = layout; files = replicate (file_count layout) empty_file }

read-iff-AreStored_example :
    (read opened hash first 140 3 ≡ ok data_bytes) ↔ AreStored opened hash first 140 3 data_bytes
unfolding open_torrent new lookup insert hash_eq check_range file_length from_start_len fits_within
read-iff-AreStored_example =
    read-iff-AreStored opened hash first 140 3 opened_torrent (record { start = 140; end = 143 })
      data_bytes opened-IsStore found accepted
  where
    found : lookup hash opened.torrents ≡ some opened_torrent
    found = refl

    accepted : check_range layout hash first 140 3 ≡ ok (record { start = 140; end = 143 })
    accepted = refl
