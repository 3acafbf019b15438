-- ===== src/Cache/Registry/Methods.antt =====
-- The methods of `Cache` that call the backing store.
use rustorr.Base.{
  ℕ, Bool, true, false, none, some, List, ltb, ◌||◌, if◌then◌else◌, ok, err, wrapping_add,
}
use rustorr.Base.Map.{lookup, remove}
use rustorr.Domain.Hash.{InfoHash, info_hash_eq}
use rustorr.Domain.Index.{FileIndex, PieceIndex}
use rustorr.Cache.Error.{unknown_torrent, layout_mismatch, pinned}
use rustorr.Cache.Layout.{TorrentLayout, layout_eq}
use rustorr.Cache.Pieces
use rustorr.Cache.Store.{PieceStore, Recovered}
use rustorr.Cache.Registry.{Cache, Reply, insert_pieces, opened_entry, put_entry, next_tick}

unfoldable pub is_registered : {S : Type 0} → Cache S → InfoHash → Bool
is_registered c t = elim (lookup t c.torrents) [ none ↦ false | some e ↦ true ]

module _ {S : Type 0} where
  -- The part of `open` for a torrent that is not registered yet.
  unfoldable pub register : Cache S → InfoHash → TorrentLayout → Recovered → Reply S (Unit {0})
  unfolding next_tick put_entry
  register c t layout recovered =
      let c' = next_tick c in
      elim (insert_pieces (Pieces.new layout.piece_count) recovered.completed_pieces) [
        | err e ↦ (err e, c')
        | ok pieces ↦
            (ok tt, put_entry c' t (opened_entry layout pieces recovered.stored_bytes c'.tick))
      ]

  -- What `write` does once the store has written, if the torrent is still there.
  unfoldable pub account : Cache S → InfoHash → ℕ → Cache S
  unfolding put_entry
  account c t added = elim (lookup t c.torrents) [
    | none ↦ c
    | some e ↦ put_entry c t (record e { stored = wrapping_add e.stored added })
  ]

  unfoldable pub mark_piece : Cache S → InfoHash → PieceIndex → Reply S (Unit {0})
  unfolding put_entry
  mark_piece c t piece = elim (lookup t c.torrents) [
    | none ↦ (err (unknown_torrent t), c)
    | some e ↦ elim (Pieces.insert e.pieces piece) [
      | err x ↦ (err x, c)
      | ok pieces ↦ (ok tt, put_entry c t (record e { pieces = pieces }))
    ]
  ]

module _ {S : Type 0} (ps : PieceStore S) where
  unfoldable pub open_torrent : Cache S → InfoHash → TorrentLayout → Reply S (Unit {0})
  unfolding register
  open_torrent c t layout = elim (lookup t c.torrents) [
    | some e ↦ if layout_eq e.layout layout then (ok tt, c) else (err (layout_mismatch t), c)
    | none ↦
        let (r, store) = ps.open_torrent c.store t layout in
        let c' = record c { store = store } in
        elim r [ err e ↦ (err e, c') | ok recovered ↦ register c' t layout recovered ]
  ]

  unfoldable pub discard_unowned : Cache S → (InfoHash → Bool) → Reply S (Unit {0})
  unfolding is_registered
  discard_unowned c owned =
      let (r, store) = ps.discard_except c.store (λ t. owned t || is_registered c t) in
      (r, record c { store = store })

  unfoldable pub write : Cache S → InfoHash → FileIndex → ℕ → List ℕ → Reply S (Unit {0})
  unfolding account
  write c t file offset bytes = elim (lookup t c.torrents) [
    | none ↦ (err (unknown_torrent t), c)
    | some e ↦
        let (r, store) = ps.write c.store t file offset bytes in
        let c' = record c { store = store } in
        elim r [ err x ↦ (err x, c') | ok added ↦ (ok tt, account c' t added) ]
  ]

  -- The clock ticks for an unknown torrent too.
  unfoldable pub read : Cache S → InfoHash → FileIndex → ℕ → ℕ → Reply S (List ℕ)
  unfolding next_tick put_entry
  read c t file offset n =
      let c' = next_tick c in
      elim (lookup t c.torrents) [
        | none ↦ (err (unknown_torrent t), c')
        | some e ↦
            (ps.read c.store t file offset n, put_entry c' t (record e { last_read = c'.tick }))
      ]

  unfoldable pub piece_completed : Cache S → InfoHash → PieceIndex → Reply S (Unit {0})
  unfolding mark_piece
  piece_completed c t piece =
      let (r, store) = ps.piece_completed c.store t piece in
      let c' = record c { store = store } in
      elim r [ err x ↦ (err x, c') | ok _ ↦ mark_piece c' t piece ]

  -- The bytes freed.
  unfoldable pub remove_torrent : Cache S → InfoHash → Reply S ℕ
  remove_torrent c t = elim (lookup t c.torrents) [
    | none ↦ (err (unknown_torrent t), c)
    | some e ↦
        let (r, store) = ps.remove_torrent c.store t in
        let c' = record c { store = store } in
        if ltb 0 e.pins then (err (pinned t), c) else elim r [
          | err x ↦ (err x, c')
          | ok _ ↦ (ok e.stored, record c' { torrents = remove t c.torrents })
        ]
  ]
