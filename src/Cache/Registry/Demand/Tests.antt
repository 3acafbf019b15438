-- ===== src/Cache/Registry/Demand/Tests.antt =====
-- A delivery to a reader, and the theorem about it.
use rustorr.Cache.Extents.Spans.{measure, insert_entry, between, last_at_most, remove}
use rustorr.Base.{ℕ, ◌≤◌, ◌≡◌, arith, refl, [], ◌∷◌, some, ok, wrapping_add, wrapping_sub}
use rustorr.Base.Map.{lookup, insert}
use rustorr.Domain.Hash.{InfoHash, info_hash_eq, hash_eq}
use rustorr.Domain.Index.{FileIndex}
use rustorr.Domain.Range.{fits_within, from_start_len, new, is_empty}
use rustorr.Cache.Extents
use rustorr.Cache.Extents.{Extents}
use rustorr.Cache.Extents.Valid.{IsCanonical}
use rustorr.Cache.Layout.{check_range, file_length, file_offset, sum_checked}
use rustorr.Cache.Layout.Laws.{IsLayout, sum}
use rustorr.Cache.Memory.{MemoryStore}
use rustorr.Cache.Memory
use rustorr.Cache.Pieces
use rustorr.Cache.Registry.{Cache, Entry, put_entry}
use rustorr.Cache.Registry.Demand.{record_demand, demanded_range, demanded_sizes, demanding}
use rustorr.Cache.Registry.Demand.Laws.{IsDemanded, delivery, record_demand-IsDemanded}

abbrev torrent : InfoHash
torrent = record { bytes = 1 ∷ [] }

abbrev second : FileIndex
second = record { index = 1 }

abbrev nothing : Extents
nothing = record { spans = []; total = 0 }

abbrev ten_each : Extents → Entry
ten_each demanded = record {
  layout = record {
    piece_length = 8;
    file_lengths = 10 ∷ 10 ∷ [];
    total_length = 20;
    piece_count = 3;
  };
  pieces = Pieces.new 3;
  stored = 20;
  pins = 1;
  readers = [];
  demanded = demanded;
  last_read = 4;
}

abbrev cache_with : Extents → Cache MemoryStore
cache_with demanded = record {
  store = Memory.new;
  cap_bytes = 50;
  next_pin = 2;
  tick = 9;
  torrents = (torrent, ten_each demanded) ∷ [];
}

abbrev delivered : Extents
delivered = record { spans = record { start = 12; end = 18 } ∷ []; total = 6 }

at : demanded_range (ten_each nothing) torrent second 2 6 ≡ ok (record { start = 12; end = 18 })
unfolding demanded_range check_range file_length from_start_len fits_within file_offset sum_checked
    new
at = refl

recorded : record_demand (cache_with nothing) torrent second 2 6 ≡ (ok tt, cache_with delivered)
unfolding record_demand lookup hash_eq demanded_range check_range file_length from_start_len
    fits_within file_offset sum_checked new put_entry insert demanding Extents.insert is_empty
    Extents.insert_spans wrapping_add insert_entry Extents.added_bytes wrapping_sub between
    last_at_most remove Extents.absorbed
recorded = refl

sizes : demanded_sizes (ten_each delivered) ≡ 0 ∷ 4 ∷ 2 ∷ []
unfolding demanded_sizes wrapping_add
sizes = refl

there : lookup torrent (cache_with nothing).torrents ≡ some (ten_each nothing)
unfolding lookup hash_eq
there = refl

nothing-IsCanonical : IsCanonical nothing
unfolding measure
nothing-IsCanonical = record { separated = tt; in_word = tt; total = refl }

layout-IsLayout : IsLayout (ten_each nothing).layout
unfolding sum
layout-IsLayout = record {
  positive = omega arith;
  total = refl;
  total_in_word = omega arith;
  pieces_in_word = omega arith;
  enough = omega arith;
  tight = omega arith;
}

record_demand-IsDemanded_example :
    (file_len : ℕ) × (file_length (ten_each nothing).layout second ≡ some file_len)
    × (8 ≤ file_len)
    × IsDemanded
        (cache_with delivered)
        torrent
        (ten_each nothing)
        (delivery (ten_each nothing).layout second 2 6)
record_demand-IsDemanded_example =
    record_demand-IsDemanded (cache_with nothing) (cache_with delivered) torrent second 2 6
      (ten_each nothing) there layout-IsLayout nothing-IsCanonical recorded
