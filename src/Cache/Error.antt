-- ===== src/Cache/Error.antt =====
-- crates/rustorr-cache/src/error.rs
use rustorr.Base.{ℕ}
use rustorr.Domain.{DomainError}
use rustorr.Domain.Hash.{InfoHash}
use rustorr.Domain.Index.{FileIndex, PieceIndex}
use rustorr.Domain.Range.{ByteRange}

-- The texts that `Error::InvalidLayout` carries.
pub data LayoutFault : Type 0 where
  zero_piece_length total_overflows too_many_pieces : LayoutFault
  demand_offset_overflows demand_range_overflows : LayoutFault

pub data CacheError : Type 0 where
  unknown_torrent layout_mismatch pinned : InfoHash → CacheError
  unknown_file : InfoHash → FileIndex → CacheError
  out_of_bounds : InfoHash → FileIndex → ByteRange → ℕ → CacheError
  missing : InfoHash → FileIndex → ByteRange → CacheError
  piece_out_of_range : PieceIndex → ℕ → CacheError
  invalid_layout : LayoutFault → CacheError
  -- The context and the source are a number: nothing in the cache reads them.
  io : ℕ → CacheError
  domain : DomainError → CacheError
