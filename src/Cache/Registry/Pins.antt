-- ===== src/Cache/Registry/Pins.antt =====
-- Pins across any history of calls: the cache and the pins that its clients hold.
pub mod Counts
pub mod Safety
pub mod Keys
use rustorr.Base.{
  ℕ, zero, suc, ◌+◌, ◌-◌, ◌≤◌, ◌<◌, ◌≡◌, ◌≢◌, refl, ap, ◌∙◌, sym, Bool, true, false, Option, none,
  some, List, [], ◌∷◌, ltb, ◌==◌, if◌then◌else◌, Result, ok, err, arith, u64_mod, wrapping_add,
  wrapping_sub, wrapping_add_lem, wrapping_sub_lem, length, get_elem?, Bool-cases, Option-cases,
  Result-cases, inl, inr,
}
use rustorr.Base.Map.{lookup, insert, remove, lookup-insert, lookup-remove}
use rustorr.Domain.Hash.{InfoHash, hash_eq, hash_eq_iff, info_hash_eq}
use rustorr.Domain.Index.{FileIndex, PieceIndex}
use rustorr.Cache.Error.{CacheError}
use rustorr.Cache.Layout.{TorrentLayout}
use rustorr.Cache.Pieces
use rustorr.Cache.Store.{PieceStore, Recovered}
use rustorr.Cache.Registry.{
  Cache, Entry, Pin, ReaderRange, Reply, new, put_entry, next_tick, pin_inner, drop_pin,
  pinned_entry, unpinned_entry, set_cap_bytes, opened_entry, insert_pieces,
}
use rustorr.Cache.Registry.Demand.{record_demand}
use rustorr.Cache.Registry.Methods.{
  is_registered, register, open_torrent, discard_unowned, account, write, read, mark_piece,
  piece_completed, remove_torrent,
}

-- A client's call. A pin is dropped by its place among the pins that are held.
pub data Call : Type 0 where
  opens : InfoHash → TorrentLayout → Call
  discards : (InfoHash → Bool) → Call
  writes : InfoHash → FileIndex → ℕ → List ℕ → Call
  reads : InfoHash → FileIndex → ℕ → ℕ → Call
  demands : InfoHash → FileIndex → ℕ → ℕ → Call
  completes : InfoHash → PieceIndex → Call
  pins : InfoHash → Option ReaderRange → Call
  drops : ℕ → Call
  removes : InfoHash → Call
  caps : ℕ → Call

pub record World (S : Type 0) : Type 0 where
  pub cache : Cache S
  pub held : List Pin

unfoldable pub without_index {ℓ} : {A : Type ℓ} → ℕ → List A → List A
without_index i [] = []
without_index zero (x ∷ xs) = xs
without_index (suc i) (x ∷ xs) = x ∷ without_index i xs

unfoldable pub pins_step : {S : Type 0} → Reply S Pin → List Pin → World S
pins_step (ok p, c) held = record { cache = c; held = p ∷ held }
pins_step (err e, c) held = record { cache = c; held = held }

-- The number of held pins of a torrent.
unfoldable pub count_held : InfoHash → List Pin → ℕ
count_held t [] = 0
count_held t (p ∷ ps) = (if hash_eq p.torrent t then 1 else 0) + count_held t ps

unfoldable pub pins_of : {S : Type 0} → Cache S → InfoHash → ℕ
pins_of c t = elim (lookup t c.torrents) [ none ↦ 0 | some e ↦ e.pins ]

module _ {S : Type 0} (ps : PieceStore S) where
  unfoldable pub step : World S → Call → World S
  unfolding pins_step without_index
  step w (opens t layout) = record w { cache = (open_torrent ps w.cache t layout).1 }
  step w (discards owned) = record w { cache = (discard_unowned ps w.cache owned).1 }
  step w (writes t file offset bytes) = record w {
    cache = (write ps w.cache t file offset bytes).1;
  }
  step w (reads t file offset n) = record w { cache = (read ps w.cache t file offset n).1 }
  step w (demands t file offset len) = record w {
    cache = (record_demand w.cache t file offset len).1;
  }
  step w (completes t piece) = record w { cache = (piece_completed ps w.cache t piece).1 }
  step w (pins t range) = pins_step (pin_inner w.cache t range) w.held
  step w (drops i) = elim (get_elem? w.held i) [
    | none ↦ w
    | some p ↦ record { cache = drop_pin w.cache p; held = without_index i w.held }
  ]
  step w (removes t) = record w { cache = (remove_torrent ps w.cache t).1 }
  step w (caps cap) = record w { cache = set_cap_bytes w.cache cap }

  unfoldable pub run : World S → List Call → World S
  unfolding step
  run w [] = w
  run w (c ∷ cs) = run (step w c) cs

-- Each entry counts the pins that are held on its torrent.
pub record AreCounted {S : Type 0} (w : World S) : Type 0 where
  pub counted : (t : InfoHash) → pins_of w.cache t ≡ count_held t w.held
