-- ===== src/Cache/Registry/Threads.antt =====
-- `Cache` of crates/rustorr-cache/src/cache.rs with its methods on several threads. `write` and
-- `piece_completed` release the lock around the call of the store: what is left of them runs later,
-- after any steps of other threads. The other methods that change the cache hold the lock while they
-- do, `open` and `remove` also while they call the store; what `read` does after it changes nothing.
-- `discard_unowned` releases the lock once it has gathered what to keep, and calls the store later.
pub mod Counts
pub mod Accounts
pub mod Calls
pub mod Writes
pub mod Runs
use rustorr.Base.{
  ℕ, ◌+◌, ◌<◌, ◌≡◌, Bool, true, false, Option, none, some, List, [], ◌∷◌, ◌++◌, ◌||◌, if◌then◌else◌,
  ok, err, get_elem?, wrapping_add, u64_mod,
}
use rustorr.Base.Map.{lookup}
use rustorr.Domain.Hash.{InfoHash, hash_eq, info_hash_eq}
use rustorr.Domain.Index.{FileIndex, PieceIndex}
use rustorr.Cache.Error.{CacheError}
use rustorr.Cache.Layout.{TorrentLayout}
use rustorr.Cache.Store.{PieceStore, Recovered}
use rustorr.Cache.Registry.{Cache, new}
use rustorr.Cache.Registry.Methods.{is_registered, account, mark_piece}
use rustorr.Cache.Registry.Pins.{
  Call, World, step, without_index, discards, writes, completes, removes,
}

-- What is left of a call: of `write` once the torrent was found, of `write` once the store has
-- written, of `piece_completed` once the store knows of the piece, of `discard_unowned` once it knows
-- what to keep.
pub data Phase : Type 0 where
  found : InfoHash → FileIndex → ℕ → List ℕ → Phase
  written : InfoHash → ℕ → Phase
  completed : InfoHash → PieceIndex → Phase
  gathered : (InfoHash → Bool) → Phase

pub record Threads (S : Type 0) : Type 0 where
  pub world : World S
  pub running : List Phase

unfoldable pub start : {S : Type 0} → S → ℕ → Threads S
start store cap = record { world = record { cache = new store cap; held = [] }; running = [] }

-- The phase writes to the torrent.
unfoldable pub is_write : InfoHash → Phase → Bool
is_write t (found u file offset bytes) = hash_eq u t
is_write t (written u n) = hash_eq u t
is_write t (completed u piece) = false
is_write t (gathered keep) = false

unfoldable pub is_writing : InfoHash → List Phase → Bool
unfolding is_write
is_writing t [] = false
is_writing t (p ∷ ps) = is_write t p || is_writing t ps

-- A call that holds the lock throughout.
unfoldable pub Whole : Call → Type 0
Whole (writes t file offset bytes) = ⊥
Whole (completes t piece) = ⊥
Whole (discards owned) = ⊥
Whole _ = Unit

-- A torrent is removed only while no write to it runs: `remove` is to be called only "after the engine has
-- released the torrent".
unfoldable pub AreReleasedFor : List Phase → Call → Type 0
AreReleasedFor running (removes t) = is_writing t running ≡ false
AreReleasedFor running _ = Unit

abbrev pub with_cache : {S : Type 0} → Threads S → Cache S → List Phase → Threads S
with_cache w c running = record { world = record w.world { cache = c }; running = running }

module _ {S : Type 0} (ps : PieceStore S) where
  pub data Step (w v : Threads S) : Type 0 where
    whole : (c : Call) → Whole c → v ≡ record w { world = step ps w.world c } → Step w v
    -- `self.state().entry(torrent)?`
    finds :
        (t : InfoHash) (file : FileIndex) (offset : ℕ) (bytes : List ℕ)
        → is_registered w.world.cache t ≡ true
        → v ≡ record w { running = found t file offset bytes ∷ w.running }
        → Step w v
    -- `self.store.write(..)?`
    stores :
        (i : ℕ) (t : InfoHash) (file : FileIndex) (offset : ℕ) (bytes : List ℕ) (n : ℕ) (s : S)
        → get_elem? w.running i ≡ some (found t file offset bytes)
        → ps.write w.world.cache.store t file offset bytes ≡ (ok n, s)
        → v
          ≡ with_cache w
              (record w.world.cache { store = s })
              (written t n ∷ without_index i w.running)
        → Step w v
    fails :
        (i : ℕ) (t : InfoHash) (file : FileIndex) (offset : ℕ) (bytes : List ℕ) (e : CacheError)
        (s : S)
        → get_elem? w.running i ≡ some (found t file offset bytes)
        → ps.write w.world.cache.store t file offset bytes ≡ (err e, s)
        → v ≡ with_cache w (record w.world.cache { store = s }) (without_index i w.running)
        → Step w v
    -- `entry.stored += added`
    accounts :
        (i : ℕ) (t : InfoHash) (n : ℕ)
        → get_elem? w.running i ≡ some (written t n)
        → v ≡ with_cache w (account w.world.cache t n) (without_index i w.running)
        → Step w v
    -- `self.store.piece_completed(..)?`
    completes_piece :
        (t : InfoHash) (piece : PieceIndex) (s : S)
        → ps.piece_completed w.world.cache.store t piece ≡ (ok tt, s)
        → v ≡ with_cache w (record w.world.cache { store = s }) (completed t piece ∷ w.running)
        → Step w v
    fails_piece :
        (t : InfoHash) (piece : PieceIndex) (e : CacheError) (s : S)
        → ps.piece_completed w.world.cache.store t piece ≡ (err e, s)
        → v ≡ with_cache w (record w.world.cache { store = s }) w.running
        → Step w v
    -- `self.state().entry(torrent)?.pieces.insert(piece)`
    marks :
        (i : ℕ) (t : InfoHash) (piece : PieceIndex)
        → get_elem? w.running i ≡ some (completed t piece)
        → v ≡ with_cache w (mark_piece w.world.cache t piece).1 (without_index i w.running)
        → Step w v
    -- `let mut keep = owned.clone(); keep.extend(self.state().torrents.keys().copied());`
    gathers :
        (owned : InfoHash → Bool)
        → v ≡ record w {
          running = gathered (λ t. owned t || is_registered w.world.cache t) ∷ w.running;
        }
        → Step w v
    -- `self.store.discard_except(&keep)`
    discards_rest :
        (i : ℕ) (keep : InfoHash → Bool)
        → get_elem? w.running i ≡ some (gathered keep)
        → v
          ≡ with_cache w
              (record w.world.cache { store = (ps.discard_except w.world.cache.store keep).1 })
              (without_index i w.running)
        → Step w v

  pub data Reach (w : Threads S) : Threads S → Type 0 where
    here : Reach w w
    next : {u v : Threads S} → Reach w u → Step u v → Reach w v

  unfoldable pub IsReleased : {w v : Threads S} → Step w v → Type 0
  unfolding AreReleasedFor
  IsReleased {w} (whole c h e) = AreReleasedFor w.running c
  IsReleased _ = Unit

  -- Each removal along the way is of a torrent that no write is running to.
  unfoldable pub AreReleased : {w v : Threads S} → Reach w v → Type 0
  unfolding IsReleased
  AreReleased here = Unit
  AreReleased (next r s) = AreReleased r × IsReleased s

  -- What the accounts ask of a store: `size` is how many bytes it holds of a torrent, and its answers tell
  -- how they change. A write that fails stores nothing that is counted.
  pub record IsCounting (size : S → InfoHash → ℕ) : Type 0 where
    pub in_word : (s : S) (t : InfoHash) → size s t < u64_mod
    pub opened :
        (s s' : S) (t : InfoHash) (layout : TorrentLayout) (r : Recovered)
        → ps.open_torrent s t layout ≡ (ok r, s')
        → size s' t ≡ r.stored_bytes
    pub open_other :
        (s : S) (t u : InfoHash) (layout : TorrentLayout)
        → hash_eq t u ≡ false
        → size (ps.open_torrent s t layout).1 u ≡ size s u
    pub wrote :
        (s s' : S) (t : InfoHash) (file : FileIndex) (offset n : ℕ) (data_bytes : List ℕ)
        → ps.write s t file offset data_bytes ≡ (ok n, s')
        → size s' t ≡ wrapping_add (size s t) n
    pub write_failed :
        (s s' : S) (t : InfoHash) (file : FileIndex) (offset : ℕ) (data_bytes : List ℕ)
        (e : CacheError)
        → ps.write s t file offset data_bytes ≡ (err e, s')
        → size s' t ≡ size s t
    pub write_other :
        (s : S) (t u : InfoHash) (file : FileIndex) (offset : ℕ) (data_bytes : List ℕ)
        → hash_eq t u ≡ false
        → size (ps.write s t file offset data_bytes).1 u ≡ size s u
    pub remove_failed :
        (s s' : S) (t : InfoHash) (e : CacheError)
        → ps.remove_torrent s t ≡ (err e, s')
        → size s' t ≡ size s t
    pub remove_other :
        (s : S) (t u : InfoHash) → hash_eq t u ≡ false → size (ps.remove_torrent s t).1 u ≡ size s u
    pub piece :
        (s : S) (t u : InfoHash) (p : PieceIndex) → size (ps.piece_completed s t p).1 u ≡ size s u
    pub discard :
        (s : S) (keep : InfoHash → Bool) (u : InfoHash)
        → size (ps.discard_except s keep).1 u ≡ size s u

-- The bytes of a torrent that the store has written and the cache has not counted yet.
unfoldable pub left_of : InfoHash → Phase → ℕ
left_of t (found u file offset bytes) = 0
left_of t (written u n) = if hash_eq u t then n else 0
left_of t (completed u piece) = 0
left_of t (gathered keep) = 0

unfoldable pub uncounted : InfoHash → List Phase → ℕ
unfolding left_of
uncounted t [] = 0
uncounted t (p ∷ ps) = wrapping_add (left_of t p) (uncounted t ps)

-- The bytes that the cache counts of a torrent that it knows.
unfoldable pub stored_of : {S : Type 0} → Cache S → InfoHash → Option ℕ
stored_of c t = elim (lookup t c.torrents) [ none ↦ none | some e ↦ some e.stored ]
