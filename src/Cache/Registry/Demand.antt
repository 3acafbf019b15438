-- ===== src/Cache/Registry/Demand.antt =====
-- What the cache reports of a torrent: the bytes its readers were given and where they read, of
-- crates/rustorr-cache/src/cache.rs (`record_demand`, `snapshot`, `snapshots`, `demanded_pieces`).
pub mod Laws
mod Tests
use rustorr.Base.{
  ℕ, ◌+◌, ◌-◌, ◌*◌, ◌/◌, ◌%◌, ◌==◌, Bool, true, false, Option, none, some, List, [], ◌∷◌, map, min,
  max, if◌then◌else◌, Result, ok, err, ◌>>=◌, ok_or, map_err, checked_add, saturating_add,
  wrapping_add, u64_mod, ltb, replicate, get_or, set, zero, suc,
}
use rustorr.Base.Map.{lookup}
use rustorr.Domain.Hash.{InfoHash, info_hash_eq}
use rustorr.Domain.Index.{FileIndex, PieceIndex}
use rustorr.Domain.Range.{ByteRange}
use rustorr.Domain.Range
use rustorr.Cache.Error.{
  CacheError, unknown_file, invalid_layout, domain, demand_offset_overflows, demand_range_overflows,
  unknown_torrent,
}
use rustorr.Cache.Extents.{Extents}
use rustorr.Cache.Extents
use rustorr.Cache.Extents.Spans.{Span}
use rustorr.Cache.Layout.{TorrentLayout}
use rustorr.Cache.Layout
use rustorr.Cache.Pieces
use rustorr.Cache.Registry.{Cache, Entry, ReaderRange, entry, put_entry}

pub record DemandedPiece : Type 0 where
  pub piece : PieceIndex
  pub size : ℕ
  pub completed : Bool

pub record TorrentSnapshot : Type 0 where
  pub torrent : InfoHash
  pub stored_bytes : ℕ
  pub piece_length : ℕ
  pub piece_count : ℕ
  pub completed_pieces : List PieceIndex
  pub demanded_bytes : ℕ
  pub demanded_pieces : List DemandedPiece
  pub active_readers : List ReaderRange

-- The range in the torrent's own coordinates that a delivery covers.
unfoldable pub demanded_range : Entry → InfoHash → FileIndex → ℕ → ℕ → Result CacheError ByteRange
demanded_range e t file offset len = do
  r ← Layout.check_range e.layout t file offset len
  base ← ok_or (Layout.file_offset e.layout file) (unknown_file t file)
  start ← ok_or (checked_add base offset) (invalid_layout demand_offset_overflows)
  end ← ok_or (checked_add start len) (invalid_layout demand_range_overflows)
  map_err domain (Range.new start end)

unfoldable pub demanding : Entry → ByteRange → Entry
demanding e r = record e { demanded = (Extents.insert e.demanded r).0 }

-- One piece's share of a span, added to the list of sizes; an index past its end is skipped.
unfoldable pub overlap : ℕ → ℕ → Span → ℕ → ℕ
overlap piece_length total s piece =
    let from = piece * piece_length % u64_mod in
    let to = min (wrapping_add from piece_length) total in min s.end to - max s.start from

unfoldable pub add_pieces : ℕ → ℕ → Span → ℕ → ℕ → List ℕ → List ℕ
unfolding overlap
add_pieces piece_length total s piece zero sizes = sizes
add_pieces piece_length total s piece (suc n) sizes =
    add_pieces piece_length total s (piece + 1) n
      (set sizes piece (wrapping_add (get_or sizes piece 0) (overlap piece_length total s piece)))

unfoldable pub add_span : ℕ → ℕ → Span → List ℕ → List ℕ
unfolding add_pieces
add_span piece_length total s sizes =
    let first = s.start / piece_length in
    let last = (s.end - 1) / piece_length in
    add_pieces piece_length total s first (last + 1 - first) sizes

unfoldable pub add_spans : ℕ → ℕ → List Span → List ℕ → List ℕ
unfolding add_span
add_spans piece_length total [] sizes = sizes
add_spans piece_length total (s ∷ ss) sizes =
    add_spans piece_length total ss (add_span piece_length total s sizes)

-- The length of a piece: the last one may be short.
unfoldable pub actual_length : TorrentLayout → ℕ → ℕ
actual_length l piece =
    if piece + 1 == l.piece_count then l.total_length - piece * l.piece_length else l.piece_length

unfoldable pub listed : TorrentLayout → ℕ → List ℕ → List DemandedPiece
unfolding actual_length
listed l piece [] = []
listed l piece (size ∷ sizes) =
    let rest = listed l (piece + 1) sizes in
    if size == 0
    then rest
    else record {
      piece = record { index = piece };
      size = size;
      completed = size == actual_length l piece;
    }
      ∷ rest

unfoldable pub demanded_sizes : Entry → List ℕ
unfolding add_spans
demanded_sizes e =
    add_spans e.layout.piece_length e.layout.total_length e.demanded.spans
      (replicate e.layout.piece_count 0)

unfoldable pub demanded_pieces : Entry → List DemandedPiece
unfolding demanded_sizes listed
demanded_pieces e = listed e.layout 0 (demanded_sizes e)

-- A reader's range in the torrent's own coordinates.
unfoldable offset_or_default : Option ℕ → ℕ
offset_or_default none = 0
offset_or_default (some n) = n

unfoldable pub placed_reader : TorrentLayout → ReaderRange → ReaderRange
unfolding offset_or_default
placed_reader l r =
    let base = offset_or_default (Layout.file_offset l r.file) in
    record { file = r.file; start = saturating_add base r.start; end = saturating_add base r.end }

unfoldable pub snapshot_of : InfoHash → Entry → TorrentSnapshot
unfolding placed_reader demanded_pieces
snapshot_of t e = record {
  torrent = t;
  stored_bytes = e.stored;
  piece_length = e.layout.piece_length;
  piece_count = e.layout.piece_count;
  completed_pieces = Pieces.indexes e.pieces;
  demanded_bytes = e.demanded.total;
  demanded_pieces = demanded_pieces e;
  active_readers = map (λ r. placed_reader e.layout r.1) e.readers;
}

-- `[u8; 20]` in the order of `sort_by_key`.
unfoldable pub bytes_le : List ℕ → List ℕ → Bool
bytes_le [] ys = true
bytes_le (x ∷ xs) [] = false
bytes_le (x ∷ xs) (y ∷ ys) = let rest = bytes_le xs ys in if x == y then rest else ltb x y

unfoldable pub place_snapshot : TorrentSnapshot → List TorrentSnapshot → List TorrentSnapshot
unfolding bytes_le
place_snapshot x [] = x ∷ []
place_snapshot x (y ∷ ys) =
    if bytes_le x.torrent.bytes y.torrent.bytes then x ∷ y ∷ ys else y ∷ place_snapshot x ys

unfoldable pub sorted_snapshots : List (InfoHash × Entry) → List TorrentSnapshot
unfolding place_snapshot snapshot_of
sorted_snapshots [] = []
sorted_snapshots ((t, e) ∷ m) = place_snapshot (snapshot_of t e) (sorted_snapshots m)

module _ {S : Type 0} where
  unfoldable pub snapshots : Cache S → List TorrentSnapshot
  unfolding sorted_snapshots
  snapshots c = sorted_snapshots c.torrents

  unfoldable pub record_demand :
      Cache S → InfoHash → FileIndex → ℕ → ℕ → Result CacheError (Unit {0}) × Cache S
  record_demand c t file offset len = elim (lookup t c.torrents) [
    | none ↦ (err (unknown_torrent t), c)
    | some e ↦ elim (demanded_range e t file offset len) [
      | err x ↦ (err x, c)
      | ok r ↦ (ok tt, put_entry c t (demanding e r))
    ]
  ]

  unfoldable pub snapshot : Cache S → InfoHash → Result CacheError TorrentSnapshot
  unfolding snapshot_of
  snapshot c t = do e ← entry c t; ok (snapshot_of t e)
