-- ===== src/Cache/Registry.antt =====
-- `Cache` of crates/rustorr-cache/src/cache.rs over a backing store. One value holds what the Rust
-- type keeps behind its mutex, its two atomics and the store; a method returns its result and the new
-- value. `write` and `piece_completed` take the lock more than once; in Methods nothing else runs in
-- between, in Threads other calls do.
pub mod Methods
pub mod Pins
pub mod Eviction
pub mod Demand
pub mod Threads
mod Tests
use rustorr.Base.{
  ℕ, ◌+◌, ◌<◌, Bool, true, false, Option, none, some, List, [], ◌∷◌, ◌++◌, ltb, ◌==◌, not, ◌||◌,
  ◌&&◌, if◌then◌else◌, Result, ok, err, ◌>>=◌, ok_or, map_err, wrapping_add, wrapping_sub, u64_mod,
  length, saturating_add,
}
use rustorr.Base.Map.{Map, lookup, insert, remove}
use rustorr.Domain.Hash.{InfoHash, info_hash_eq}
use rustorr.Domain.Index.{FileIndex, PieceIndex}
use rustorr.Cache.Error.{CacheError, unknown_torrent, layout_mismatch, pinned, unknown_file}
use rustorr.Cache.Extents.{Extents}
use rustorr.Cache.Extents
use rustorr.Cache.Layout.{TorrentLayout, layout_eq}
use rustorr.Cache.Layout
use rustorr.Cache.Pieces.{PieceSet}
use rustorr.Cache.Pieces
use rustorr.Cache.Store.{PieceStore, Recovered}

pub record ReaderRange : Type 0 where
  pub file : FileIndex
  pub start : ℕ
  pub end : ℕ

pub record Entry : Type 0 where
  pub layout : TorrentLayout
  pub pieces : PieceSet
  pub stored : ℕ
  pub pins : ℕ
  pub readers : List (ℕ × ReaderRange)
  pub demanded : Extents
  pub last_read : ℕ

pub record Cache (S : Type 0) : Type 0 where
  pub store : S
  pub cap_bytes : ℕ
  pub next_pin : ℕ
  pub tick : ℕ
  pub torrents : Map InfoHash Entry

pub record Pin : Type 0 where
  pub torrent : InfoHash
  pub id : ℕ

pub record CacheStats : Type 0 where
  pub stored_bytes : ℕ
  pub cap_bytes : ℕ
  pub torrents : ℕ
  pub pinned_torrents : ℕ

-- A method's result, and the cache after it.
abbrev pub Reply : Type 0 → Type 0 → Type 0
Reply S A = Result CacheError A × Cache S

unfoldable pub insert_pieces : PieceSet → List PieceIndex → Result CacheError PieceSet
insert_pieces s [] = ok s
insert_pieces s (p ∷ ps) = do s' ← Pieces.insert s p; insert_pieces s' ps

unfoldable pub opened_entry : TorrentLayout → PieceSet → ℕ → ℕ → Entry
opened_entry layout pieces stored last_read = record {
  layout = layout;
  pieces = pieces;
  stored = stored;
  pins = 0;
  readers = [];
  demanded = Extents.empty;
  last_read = last_read;
}

-- `readers.retain(|(id, _)| *id != self.id)`
unfoldable pub without_reader : ℕ → List (ℕ × ReaderRange) → List (ℕ × ReaderRange)
without_reader id [] = []
without_reader id ((i, r) ∷ rs) =
    let rest = without_reader id rs in if i == id then rest else (i, r) ∷ rest

unfoldable pub unpinned_entry : Entry → ℕ → ℕ → Entry
unfolding without_reader
unpinned_entry e id tick = record e {
  pins = wrapping_sub e.pins 1;
  readers = without_reader id e.readers;
  last_read = tick;
}

unfoldable pub pinned_entry : Entry → ℕ → Option ReaderRange → Entry
pinned_entry e id range = record e {
  pins = wrapping_add e.pins 1;
  readers = elim range [ none ↦ e.readers | some r ↦ e.readers ++ (id, r) ∷ [] ];
}

unfoldable pub sum_stored : Map InfoHash Entry → ℕ
sum_stored [] = 0
sum_stored ((t, e) ∷ m) = wrapping_add e.stored (sum_stored m)

unfoldable pub count_pinned : Map InfoHash Entry → ℕ
count_pinned [] = 0
count_pinned ((t, e) ∷ m) = (if ltb 0 e.pins then 1 else 0) + count_pinned m

module _ {S : Type 0} where
  unfoldable pub new : S → ℕ → Cache S
  new store cap = record { store = store; cap_bytes = cap; next_pin = 1; tick = 0; torrents = [] }

  -- Every method that reads or writes an entry begins so.
  unfoldable pub entry : Cache S → InfoHash → Result CacheError Entry
  entry c t = ok_or (lookup t c.torrents) (unknown_torrent t)

  unfoldable pub put_entry : Cache S → InfoHash → Entry → Cache S
  put_entry c t e = record c { torrents = insert t e c.torrents }

  unfoldable pub next_tick : Cache S → Cache S
  next_tick c = record c { tick = wrapping_add c.tick 1 }

  unfoldable pub pin_inner : Cache S → InfoHash → Option ReaderRange → Reply S Pin
  unfolding pinned_entry put_entry
  pin_inner c t range =
      let c' = record c { next_pin = wrapping_add c.next_pin 1 } in
      elim (lookup t c.torrents) [
        | none ↦ (err (unknown_torrent t), c')
        | some e ↦ (
          ok (record { torrent = t; id = c.next_pin }),
          put_entry c' t (pinned_entry e c.next_pin range),
        )
      ]

  unfoldable pub pin : Cache S → InfoHash → Reply S Pin
  unfolding pin_inner
  pin c t = pin_inner c t none

  unfoldable pub pin_range : Cache S → InfoHash → ReaderRange → Reply S Pin
  unfolding pin_inner
  pin_range c t range = pin_inner c t (some range)

  -- `Drop for Pin`
  unfoldable pub drop_pin : Cache S → Pin → Cache S
  unfolding next_tick unpinned_entry put_entry
  drop_pin c p =
      let c' = next_tick c in
      elim (lookup p.torrent c.torrents) [
        | none ↦ c'
        | some e ↦ put_entry c' p.torrent (unpinned_entry e p.id c'.tick)
      ]

  unfoldable pub set_cap_bytes : Cache S → ℕ → Cache S
  set_cap_bytes c cap = record c { cap_bytes = cap }

  unfoldable pub file_length : Cache S → InfoHash → FileIndex → Result CacheError ℕ
  unfolding entry
  file_length c t file = do
    e ← entry c t
    ok_or (Layout.file_length e.layout file) (unknown_file t file)

  unfoldable pub is_piece_resident : Cache S → InfoHash → PieceIndex → Result CacheError Bool
  unfolding entry
  is_piece_resident c t piece = do e ← entry c t; ok (Pieces.contains e.pieces piece)

  unfoldable pub ensure_unpinned : Cache S → InfoHash → Result CacheError (Unit {0})
  unfolding entry
  ensure_unpinned c t = do e ← entry c t; if ltb 0 e.pins then err (pinned t) else ok tt

  unfoldable pub stats : Cache S → CacheStats
  unfolding sum_stored count_pinned
  stats c = record {
    stored_bytes = sum_stored c.torrents;
    cap_bytes = c.cap_bytes;
    torrents = length c.torrents;
    pinned_torrents = count_pinned c.torrents;
  }
