-- ===== src/Cache/Registry/Pins/Keys.antt =====
-- Registering a torrent, accounting bytes and marking a piece keep the registered torrents distinct.
use rustorr.Base.{ℕ, Option-cases, Result-cases, inl, inr, wrapping_add}
use rustorr.Base.Map.{lookup, AreDistinct, insert-AreDistinct}
use rustorr.Domain.Hash.{InfoHash, info_hash_eq}
use rustorr.Domain.Index.{PieceIndex}
use rustorr.Cache.Layout.{TorrentLayout}
use rustorr.Cache.Pieces
use rustorr.Cache.Store.{Recovered}
use rustorr.Cache.Registry.{Cache, opened_entry, insert_pieces}
use rustorr.Cache.Registry.Methods.{register, account, mark_piece}

module _ {S : Type 0} (c : Cache S) (t : InfoHash) (d : AreDistinct c.torrents) where
  register-AreDistinct :
      (layout : TorrentLayout) (r : Recovered) → AreDistinct (register c t layout r).1.torrents
  unfolding register
  register-AreDistinct layout r =
      elim (Result-cases (insert_pieces (Pieces.new layout.piece_count) r.completed_pieces)) [
        | inl (pieces, w) ↦
            rw (w, register)
              (insert-AreDistinct t
                (opened_entry layout pieces r.stored_bytes (wrapping_add c.tick 1)) c.torrents d)
        | inr (x, w) ↦ rw (w, register) d
      ]

  account-AreDistinct : (added : ℕ) → AreDistinct (account c t added).torrents
  unfolding account
  account-AreDistinct added = elim (Option-cases (lookup t c.torrents)) [
    | inl q ↦ rw (q, account) d
    | inr (e, q) ↦
        rw (q, account)
          (insert-AreDistinct t (record e { stored = wrapping_add e.stored added }) c.torrents d)
  ]

  mark_piece-AreDistinct : (piece : PieceIndex) → AreDistinct (mark_piece c t piece).1.torrents
  unfolding mark_piece
  mark_piece-AreDistinct piece = elim (Option-cases (lookup t c.torrents)) [
    | inl q ↦ rw (q, mark_piece) d
    | inr (e, q) ↦ elim (Result-cases (Pieces.insert e.pieces piece)) [
      | inl (pieces, w) ↦
          rw (q, w, mark_piece) (insert-AreDistinct t (record e { pieces = pieces }) c.torrents d)
      | inr (x, w) ↦ rw (q, w, mark_piece) d
    ]
  ]
