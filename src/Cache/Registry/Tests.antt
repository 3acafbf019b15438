-- ===== src/Cache/Registry/Tests.antt =====
-- A history of calls over the memory store, and the theorems about the cache at it.
use rustorr.Base.{ℕ, ◌≡◌, ◌≢◌, refl, List, [], ◌∷◌, none, err, arith, All, true, wrapping_add}
use rustorr.Base.Map.{lookup, AreDistinct}
use rustorr.Domain.Hash.{InfoHash, hash_eq, hash_eq_iff, info_hash_eq}
use rustorr.Domain.Index.{FileIndex}
use rustorr.Cache.Error.{pinned}
use rustorr.Cache.Layout.{TorrentLayout}
use rustorr.Cache.Memory.{MemoryStore, memory_store}
use rustorr.Cache.Memory
use rustorr.Cache.Pieces
use rustorr.Cache.Registry.Eviction.{Item, eviction_candidates}
use rustorr.Cache.Registry.Eviction.Policy.{
  IsLru, eviction_candidates-IsLru, eviction_candidates-held,
}
use rustorr.Cache.Registry.Methods.{is_registered, remove_torrent}
use rustorr.Cache.Registry.Pins.{
  World, Call, AreCounted, run, count_held, pins_of, opens, pins, drops, removes,
}
use rustorr.Cache.Registry.Pins.Safety.{run-new-AreCounted, remove-held}
use rustorr.Cache.Registry.{Cache, Entry, new}

abbrev hash : ℕ → InfoHash
hash n = record { bytes = n ∷ [] }

abbrev layout : TorrentLayout
layout = record { piece_length = 100; file_lengths = 150 ∷ []; total_length = 150; piece_count = 2 }

abbrev first : FileIndex
first = record { index = 0 }

abbrev history : List Call
history =
    opens (hash 1) layout
    ∷ opens (hash 2) layout
    ∷ pins (hash 1) none
    ∷ removes (hash 1)
    ∷ pins (hash 1) none
    ∷ drops 0
    ∷ []

abbrev begin : World MemoryStore
begin = record { cache = new Memory.new 30; held = [] }

run-new-AreCounted_example : AreCounted (run memory_store begin history)
run-new-AreCounted_example = run-new-AreCounted memory_store Memory.new 30 history (omega arith)

-- Three torrents, the second of them watched.
abbrev entry_with : ℕ → ℕ → ℕ → Entry
entry_with stored watchers last_read = record {
  layout = layout;
  pieces = Pieces.new 2;
  stored = stored;
  pins = watchers;
  readers = [];
  demanded = record { spans = []; total = 0 };
  last_read = last_read;
}

abbrev three : Cache MemoryStore
three = record {
  store = Memory.new;
  cap_bytes = 50;
  next_pin = 2;
  tick = 9;
  torrents =
      (hash 1, entry_with 40 0 5) ∷ (hash 2, entry_with 40 1 3) ∷ (hash 3, entry_with 40 0 4) ∷ [];
}

abbrev watched : World MemoryStore
watched = record { cache = three; held = record { torrent = hash 2; id = 1 } ∷ [] }

three-AreDistinct : AreDistinct three.torrents
unfolding lookup hash_eq
three-AreDistinct = (refl, (refl, (refl, tt)))

watched-AreCounted : AreCounted watched
unfolding pins_of lookup count_held
watched-AreCounted = record {
  counted =
      λ t. ground (arith, hash_eq_iff (hash 1) t, hash_eq_iff (hash 2) t, hash_eq_iff (hash 3) t);
}

both_named : eviction_candidates three ≡ hash 3 ∷ hash 1 ∷ []
unfolding eviction_candidates wrapping_add
both_named = refl

eviction_candidates-IsLru_example : (order : List Item) × IsLru three order
eviction_candidates-IsLru_example = eviction_candidates-IsLru three three-AreDistinct

eviction_candidates-held_example : All (λ t. t ≢ hash 2) (eviction_candidates three)
eviction_candidates-held_example =
    eviction_candidates-held watched 0 (record { torrent = hash 2; id = 1 }) three-AreDistinct
      watched-AreCounted refl

remove-held_example :
    (remove_torrent memory_store three (hash 2) ≡ (err (pinned (hash 2)), three))
    × (is_registered three (hash 2) ≡ true)
remove-held_example =
    remove-held memory_store watched 0 (record { torrent = hash 2; id = 1 }) watched-AreCounted refl
