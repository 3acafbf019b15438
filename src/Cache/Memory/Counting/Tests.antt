-- ===== src/Cache/Memory/Counting/Tests.antt =====
-- Two threads write to one torrent of a memory store; their writes overlap, and the one that stored
-- first is counted last.
use rustorr.Base.{ℕ, ◌≡◌, refl, List, [], ◌∷◌, some, false, wrapping_add, wrapping_sub}
use rustorr.Base.Map.{lookup, insert}
use rustorr.Domain.Hash.{InfoHash, hash_eq, info_hash_eq}
use rustorr.Domain.Index.{FileIndex}
use rustorr.Cache.Layout.{TorrentLayout, check_range, file_length, file_count}
use rustorr.Domain.Range.{from_start_len, fits_within, is_empty}
use rustorr.Cache.Extents
use rustorr.Cache.Extents.Spans.{last_at_most, between, insert_entry}
use rustorr.Cache.Pieces
use rustorr.Cache.Memory.{MemoryStore, memory_store}
use rustorr.Cache.Memory
use rustorr.Cache.Memory.Counting.{total_of, memory_store-IsCounting}
use rustorr.Cache.Registry.{Entry, new, insert_pieces, opened_entry, next_tick, put_entry}
use rustorr.Cache.Registry.Methods.{is_registered, account, open_torrent, register}
use rustorr.Cache.Registry.Pins.{opens, step, without_index}
use rustorr.Cache.Registry.Threads.{
  Threads, found, written, Reach, here, next, start, whole, finds, stores, accounts, is_writing,
  with_cache, Whole, AreReleased,
}
use rustorr.Cache.Registry.Threads.Runs.{stored-eq-size}

abbrev hash : InfoHash
hash = record { bytes = 1 ∷ [] }

abbrev layout : TorrentLayout
layout = record { piece_length = 100; file_lengths = 150 ∷ []; total_length = 150; piece_count = 2 }

abbrev first : FileIndex
first = record { index = 0 }

abbrev two_bytes : List ℕ
two_bytes = 7 ∷ 8 ∷ []

abbrev three_bytes : List ℕ
three_bytes = 8 ∷ 9 ∷ 10 ∷ []

abbrev begin : Threads MemoryStore
begin = start Memory.new 30

abbrev opened : Threads MemoryStore
opened = with_cache begin (open_torrent memory_store begin.world.cache hash layout).1 []

abbrev both_found : Threads MemoryStore
both_found = record opened {
  running = found hash first 1 three_bytes ∷ found hash first 0 two_bytes ∷ [];
}

-- The thread of the two bytes stores them first.
abbrev one_written : Threads MemoryStore
one_written =
    with_cache both_found
      (record opened.world.cache {
        store = (Memory.write opened.world.cache.store hash first 0 two_bytes).1;
      })
      (written hash 2 ∷ found hash first 1 three_bytes ∷ [])

abbrev both_written : Threads MemoryStore
both_written =
    with_cache one_written
      (record one_written.world.cache {
        store = (Memory.write one_written.world.cache.store hash first 1 three_bytes).1;
      })
      (written hash 2 ∷ written hash 2 ∷ [])

abbrev one_counted : Threads MemoryStore
one_counted =
    with_cache both_written (account both_written.world.cache hash 2) (written hash 2 ∷ [])

abbrev both_counted : Threads MemoryStore
both_counted = with_cache one_counted (account one_counted.world.cache hash 2) []

reached : Reach memory_store begin both_counted
unfolding Whole is_registered is_writing lookup step open_torrent start new Memory.open_torrent
    Memory.new insert_pieces insert hash_eq Memory.write check_range file_length from_start_len
    fits_within wrapping_add wrapping_sub between last_at_most Extents.added_bytes Extents.empty
    Extents.insert file_count Memory.empty_file Memory.write_file Memory.write_torrent Pieces.new
    account without_index opened_entry register next_tick put_entry is_empty Extents.insert_spans
    insert_entry
reached =
    next
      (next
        (next
          (next
            (next
              (next (next here (whole (opens hash layout) tt refl))
                (finds hash first 0 two_bytes refl refl))
              (finds hash first 1 three_bytes refl refl))
            (stores 1 hash first 0 two_bytes 2
              (Memory.write opened.world.cache.store hash first 0 two_bytes).1 refl refl refl))
          (stores 1 hash first 1 three_bytes 2
            (Memory.write one_written.world.cache.store hash first 1 three_bytes).1 refl refl refl))
        (accounts 0 hash 2 refl refl))
      (accounts 0 hash 2 refl refl)

released : AreReleased memory_store reached
unfolding AreReleased reached
released = (((((((tt, tt), tt), tt), tt), tt), tt), tt)

abbrev counted_entry : Entry
counted_entry = record {
  layout = layout;
  pieces = record { complete = false ∷ false ∷ [] };
  stored = 4;
  pins = 0;
  readers = [];
  demanded = record { spans = []; total = 0 };
  last_read = 1;
}

counted : lookup hash both_counted.world.cache.torrents ≡ some counted_entry
unfolding Whole is_registered is_writing lookup step open_torrent start new Memory.open_torrent
    Memory.new insert_pieces insert hash_eq Memory.write check_range file_length from_start_len
    fits_within wrapping_add wrapping_sub between last_at_most Extents.added_bytes Extents.empty
    Extents.insert file_count Memory.empty_file Memory.write_file Memory.write_torrent Pieces.new
    account without_index opened_entry register next_tick put_entry is_empty
counted = refl

stored-eq-size_example : 4 ≡ total_of both_counted.world.cache.store hash
unfolding Whole is_registered is_writing lookup step open_torrent start new Memory.open_torrent
    Memory.new insert_pieces insert hash_eq Memory.write check_range file_length from_start_len
    fits_within wrapping_add wrapping_sub between last_at_most Extents.added_bytes Extents.empty
    Extents.insert file_count Memory.empty_file Memory.write_file Memory.write_torrent Pieces.new
    account without_index opened_entry register next_tick put_entry is_empty
stored-eq-size_example =
    stored-eq-size memory_store-IsCounting Memory.new 30 both_counted hash counted_entry reached
      released counted refl
