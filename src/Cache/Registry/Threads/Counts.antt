-- ===== src/Cache/Registry/Threads/Counts.antt =====
-- How each method changes the bytes that the cache counts of a torrent.
use rustorr.Base.{
  ℕ, ◌≡◌, none, some, arith, wrapping_add, if◌then◌else◌, ◌⊎◌, Option-cases, Result-cases, inl, inr,
  Option,
}
use rustorr.Base.Map.{lookup, lookup-insert}
use rustorr.Domain.Hash.{InfoHash, hash_eq, hash_eq_iff, info_hash_eq}
use rustorr.Domain.Index.{FileIndex, PieceIndex}
use rustorr.Cache.Layout.{TorrentLayout}
use rustorr.Cache.Pieces
use rustorr.Cache.Store.{PieceStore, Recovered}
use rustorr.Cache.Registry.{
  Cache, Pin, ReaderRange, opened_entry, insert_pieces, pin_inner, pinned_entry, drop_pin,
  unpinned_entry, put_entry,
}
use rustorr.Cache.Registry.Demand.{record_demand, demanded_range, demanding}
use rustorr.Cache.Registry.Methods.{register, account, read, mark_piece}
use rustorr.Cache.Registry.Threads.{stored_of}

module _ {S : Type 0} (c : Cache S) (t u : InfoHash) where
  pub stored_of-account :
      (n : ℕ)
      → stored_of (account c t n) u ≡ (
          if hash_eq t u
          then elim (stored_of c t) [ none ↦ none | some m ↦ some (wrapping_add m n) ]
          else stored_of c u)
  unfolding account stored_of
  stored_of-account n = elim (Option-cases (lookup t c.torrents)) [
    | inl q ↦ ground (arith, q, hash_eq_iff t u)
    | inr (e, q) ↦ ground (
      arith,
      q,
      hash_eq_iff t u,
      lookup-insert t u (record e { stored = wrapping_add e.stored n }) c.torrents,
    )
  ]

  pub stored_of-mark_piece :
      (piece : PieceIndex) → stored_of (mark_piece c t piece).1 u ≡ stored_of c u
  unfolding mark_piece stored_of
  stored_of-mark_piece piece = elim (Option-cases (lookup t c.torrents)) [
    | inl q ↦ ground (arith, q)
    | inr (e, q) ↦ elim (Result-cases (Pieces.insert e.pieces piece)) [
      | inl (pieces, w) ↦ ground (
        arith,
        q,
        w,
        hash_eq_iff t u,
        lookup-insert t u (record e { pieces = pieces }) c.torrents,
      )
      | inr (x, w) ↦ ground (arith, q, w)
    ]
  ]

  pub stored_of-register :
      (layout : TorrentLayout) (r : Recovered)
      → lookup t c.torrents ≡ none
      → (stored_of (register c t layout r).1 u ≡ stored_of c u)
        ⊎ (stored_of (register c t layout r).1 u
            ≡ (if hash_eq t u then some r.stored_bytes else stored_of c u))
  unfolding register stored_of opened_entry
  stored_of-register layout r q =
      elim (Result-cases (insert_pieces (Pieces.new layout.piece_count) r.completed_pieces)) [
        | inl (pieces, w) ↦ inr (
            ground (
              arith,
              q,
              w,
              hash_eq_iff t u,
              lookup-insert t u (opened_entry layout pieces r.stored_bytes (wrapping_add c.tick 1))
                  c.torrents,
            ))
        | inr (x, w) ↦ inl (ground (arith, w))
      ]

  pub stored_of-pin :
      (range : Option ReaderRange) → stored_of (pin_inner c t range).1 u ≡ stored_of c u
  unfolding pin_inner stored_of pinned_entry
  stored_of-pin range = elim (Option-cases (lookup t c.torrents)) [
    | inl q ↦ ground (arith, q)
    | inr (e, q) ↦
        ground (
          arith,
          q,
          hash_eq_iff t u,
          lookup-insert t u (pinned_entry e c.next_pin range) c.torrents,
        )
  ]

  pub stored_of-read :
      (ps : PieceStore S) (file : FileIndex) (offset n : ℕ)
      → stored_of (read ps c t file offset n).1 u ≡ stored_of c u
  unfolding read stored_of
  stored_of-read ps file offset n = elim (Option-cases (lookup t c.torrents)) [
    | inl q ↦ ground (arith, q)
    | inr (e, q) ↦ ground (
      arith,
      q,
      hash_eq_iff t u,
      lookup-insert t u (record e { last_read = wrapping_add c.tick 1 }) c.torrents,
    )
  ]

  pub stored_of-record_demand :
      (file : FileIndex) (offset len : ℕ)
      → stored_of (record_demand c t file offset len).1 u ≡ stored_of c u
  unfolding record_demand put_entry demanding stored_of
  stored_of-record_demand file offset len = elim (Option-cases (lookup t c.torrents)) [
    | inl q ↦ ground (arith, q)
    | inr (e, q) ↦ elim (Result-cases (demanded_range e t file offset len)) [
      | inl (r, w) ↦
          ground (arith, q, w, hash_eq_iff t u, lookup-insert t u (demanding e r) c.torrents)
      | inr (x, w) ↦ ground (arith, q, w)
    ]
  ]

pub stored_of-drop_pin :
    {S : Type 0} (c : Cache S) (p : Pin) (u : InfoHash) → stored_of (drop_pin c p) u ≡ stored_of c u
unfolding drop_pin stored_of unpinned_entry
stored_of-drop_pin c p u = elim (Option-cases (lookup p.torrent c.torrents)) [
  | inl q ↦ ground (arith, q)
  | inr (e, q) ↦ ground (
    arith,
    q,
    hash_eq_iff p.torrent u,
    lookup-insert p.torrent u (unpinned_entry e p.id (wrapping_add c.tick 1)) c.torrents,
  )
]
