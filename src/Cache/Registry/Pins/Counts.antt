-- ===== src/Cache/Registry/Pins/Counts.antt =====
-- How each method changes the pins of a torrent: only `pin` and dropping a pin do.
use rustorr.Base.{ℕ, ◌≡◌, none, List, arith, wrapping_add, Option-cases, Result-cases, inl, inr}
use rustorr.Base.Map.{lookup, lookup-insert, lookup-remove}
use rustorr.Domain.Hash.{InfoHash, hash_eq_iff, info_hash_eq}
use rustorr.Domain.Index.{FileIndex, PieceIndex}
use rustorr.Cache.Layout.{TorrentLayout}
use rustorr.Cache.Pieces
use rustorr.Cache.Store.{PieceStore, Recovered}
use rustorr.Cache.Registry.{Cache, opened_entry, insert_pieces, put_entry}
use rustorr.Cache.Registry.Demand.{record_demand, demanded_range, demanding}
use rustorr.Cache.Registry.Methods.{
  register, open_torrent, account, write, read, mark_piece, piece_completed, remove_torrent,
}
use rustorr.Cache.Registry.Pins.{pins_of}

module _ {S : Type 0} (c : Cache S) (t u : InfoHash) where
  pub pins_of-record_demand :
      (file : FileIndex) (offset len : ℕ)
      → pins_of (record_demand c t file offset len).1 u ≡ pins_of c u
  unfolding record_demand put_entry demanding pins_of
  pins_of-record_demand file offset len = elim (Option-cases (lookup t c.torrents)) [
    | inl q ↦ ground (arith, q)
    | inr (e, q) ↦ elim (Result-cases (demanded_range e t file offset len)) [
      | inl (r, w) ↦
          ground (arith, q, w, hash_eq_iff t u, lookup-insert t u (demanding e r) c.torrents)
      | inr (x, w) ↦ ground (arith, q, w)
    ]
  ]

  pub pins_of-account : (added : ℕ) → pins_of (account c t added) u ≡ pins_of c u
  unfolding account pins_of
  pins_of-account added = elim (Option-cases (lookup t c.torrents)) [
    | inl q ↦ ground (arith, q)
    | inr (e, q) ↦ ground (
      arith,
      q,
      hash_eq_iff t u,
      lookup-insert t u (record e { stored = wrapping_add e.stored added }) c.torrents,
    )
  ]

  pub pins_of-mark_piece : (piece : PieceIndex) → pins_of (mark_piece c t piece).1 u ≡ pins_of c u
  unfolding mark_piece pins_of
  pins_of-mark_piece piece = elim (Option-cases (lookup t c.torrents)) [
    | inl q ↦ ground (arith, q)
    | inr (e, q) ↦ elim (Result-cases (Pieces.insert e.pieces piece)) [
      | inl (pieces, w) ↦ ground (
        arith,
        q,
        w,
        hash_eq_iff t u,
        lookup-insert t u (record e { pieces = pieces }) c.torrents,
      )
      | inr (x, w) ↦ ground (arith, q, w)
    ]
  ]

  pub pins_of-register :
      (layout : TorrentLayout) (r : Recovered)
      → lookup t c.torrents ≡ none
      → pins_of (register c t layout r).1 u ≡ pins_of c u
  unfolding register pins_of opened_entry
  pins_of-register layout r q =
      elim (Result-cases (insert_pieces (Pieces.new layout.piece_count) r.completed_pieces)) [
        | inl (pieces, w) ↦ ground (
          arith,
          q,
          w,
          hash_eq_iff t u,
          lookup-insert t u (opened_entry layout pieces r.stored_bytes (wrapping_add c.tick 1))
              c.torrents,
        )
        | inr (x, w) ↦ ground (arith, w)
      ]

module _ {S : Type 0} (ps : PieceStore S) (c : Cache S) (t u : InfoHash) where
  pub pins_of-read :
      (file : FileIndex) (offset n : ℕ) → pins_of (read ps c t file offset n).1 u ≡ pins_of c u
  unfolding read pins_of
  pins_of-read file offset n = elim (Option-cases (lookup t c.torrents)) [
    | inl q ↦ ground (arith, q)
    | inr (e, q) ↦ ground (
      arith,
      q,
      hash_eq_iff t u,
      lookup-insert t u (record e { last_read = wrapping_add c.tick 1 }) c.torrents,
    )
  ]

  pub pins_of-write :
      (file : FileIndex) (offset : ℕ) (bytes : List ℕ)
      → pins_of (write ps c t file offset bytes).1 u ≡ pins_of c u
  unfolding write pins_of
  pins_of-write file offset bytes =
      let (r, store) = ps.write c.store t file offset bytes in
      let c' : Cache S = record c { store = store } in
      elim (Result-cases r) [
        | inl (added, e) ↦ ground (arith, e, pins_of-account c' t u added)
        | inr (x, e) ↦ ground (arith, e)
      ]

  pub pins_of-piece_completed :
      (piece : PieceIndex) → pins_of (piece_completed ps c t piece).1 u ≡ pins_of c u
  unfolding piece_completed pins_of
  pins_of-piece_completed piece =
      let (r, store) = ps.piece_completed c.store t piece in
      let c' : Cache S = record c { store = store } in
      ground (arith, pins_of-mark_piece c' t u piece)

  pub pins_of-open :
      (layout : TorrentLayout) → pins_of (open_torrent ps c t layout).1 u ≡ pins_of c u
  unfolding open_torrent pins_of
  pins_of-open layout =
      let (r, store) = ps.open_torrent c.store t layout in
      let c' : Cache S = record c { store = store } in
      elim (Result-cases r) [
        | inl (recovered, e) ↦ ground (arith, e, pins_of-register c' t u layout recovered)
        | inr (x, e) ↦ ground (arith, e)
      ]

  -- Only an unpinned torrent is removed.
  pub pins_of-remove : pins_of (remove_torrent ps c t).1 u ≡ pins_of c u
  unfolding remove_torrent pins_of
  pins_of-remove =
      let (r, store) = ps.remove_torrent c.store t in
      ground (arith, lookup-remove t u c.torrents, hash_eq_iff t u)
