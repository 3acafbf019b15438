-- ===== src/Cache/Store.antt =====
-- `PieceStore` of crates/rustorr-cache/src/store.rs: what the cache asks of a backing store. A method
-- on `&self` that changes the store takes the store and returns it beside its result, and what was
-- changed before an error stays changed.
use rustorr.Base.{ℕ, List, Result, Bool}
use rustorr.Domain.Hash.{InfoHash}
use rustorr.Domain.Index.{FileIndex, PieceIndex}
use rustorr.Cache.Error.{CacheError}
use rustorr.Cache.Layout.{TorrentLayout}

pub record Recovered : Type 0 where
  pub stored_bytes : ℕ
  pub completed_pieces : List PieceIndex

abbrev pub Outcome : Type 0 → Type 0 → Type 0
Outcome S A = Result CacheError A × S

pub record PieceStore (S : Type 0) : Type 0 where
  pub open_torrent : S → InfoHash → TorrentLayout → Outcome S Recovered
  pub write : S → InfoHash → FileIndex → ℕ → List ℕ → Outcome S ℕ
  -- The bytes read, for a length.
  pub read : S → InfoHash → FileIndex → ℕ → ℕ → Result CacheError (List ℕ)
  pub remove_torrent : S → InfoHash → Outcome S (Unit {0})
  pub piece_completed : S → InfoHash → PieceIndex → Outcome S (Unit {0})
  pub discard_except : S → (InfoHash → Bool) → Outcome S (Unit {0})
