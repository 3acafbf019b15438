-- ===== src/Cache/Memory.antt =====
-- crates/rustorr-cache/src/memory.rs. The locks guard one torrent each; a method is one step. The
-- map of blocks has block numbers as keys; a byte is a number below 256.
pub mod Blocks
pub mod Files
pub mod Contents
pub mod Reads
pub mod Counting
mod Tests
use rustorr.Base.{
  ℕ, zero, suc, ◌+◌, ◌-◌, ◌*◌, ◌/◌, ◌%◌, ◌≡◌, Bool, true, false, Option, none, some, List, [], ◌∷◌,
  ◌++◌, ltb, leb, ◌==◌, if◌then◌else◌, Result, ok, err, ◌>>=◌, ok_or, length, get_elem?, take, drop,
  set, replicate, min,
}
use rustorr.Base.Map.{Map, lookup, insert, remove}
use rustorr.Domain.Hash.{InfoHash, info_hash_eq}
use rustorr.Domain.Index.{FileIndex, PieceIndex}
use rustorr.Domain.Range.{ByteRange}
use rustorr.Cache.Extents.{Extents}
use rustorr.Cache.Extents
use rustorr.Cache.Error.{CacheError, unknown_torrent, missing}
use rustorr.Cache.Layout.{TorrentLayout, check_range, file_count}
use rustorr.Cache.Store.{PieceStore, Recovered, Outcome}
use Blocks.{BlockMap, write_blocks, read_blocks}

pub record File : Type 0 where
  pub extents : Extents
  pub blocks : BlockMap

pub record Torrent : Type 0 where
  pub layout : TorrentLayout
  pub files : List File

pub record MemoryStore : Type 0 where
  pub torrents : Map InfoHash Torrent

pub new : MemoryStore
new = record { torrents = [] }

pub empty_file : File
empty_file = record { extents = Extents.empty; blocks = [] }

pub open_torrent : MemoryStore → InfoHash → TorrentLayout → Outcome MemoryStore Recovered
unfolding empty_file
open_torrent s t layout = (
  ok (record { stored_bytes = 0; completed_pieces = [] }),
  record {
    torrents =
        insert t (record { layout = layout; files = replicate (file_count layout) empty_file })
          s.torrents;
  },
)

-- The part of `write` under the torrent's lock. An index past the files would be a panic; the range
-- check has refused it, and the write is then left out.
pub write_file : File → ByteRange → ℕ → List ℕ → File × ℕ
write_file f range offset bytes =
    let (extents, added) = Extents.insert f.extents range in
    (record { extents = extents; blocks = write_blocks offset bytes f.blocks }, added)

pub write_torrent : Torrent → FileIndex → ByteRange → ℕ → List ℕ → Torrent × ℕ
write_torrent torrent file range offset bytes = elim (get_elem? torrent.files file.index) [
  | none ↦ (torrent, 0)
  | some f ↦
      let (f', added) = write_file f range offset bytes in
      (record torrent { files = set torrent.files file.index f' }, added)
]

pub write : MemoryStore → InfoHash → FileIndex → ℕ → List ℕ → Outcome MemoryStore ℕ
write s t file offset bytes = elim (lookup t s.torrents) [
  | none ↦ (err (unknown_torrent t), s)
  | some torrent ↦ elim (check_range torrent.layout t file offset (length bytes)) [
    | err e ↦ (err e, s)
    | ok range ↦
        let (torrent', added) = write_torrent torrent file range offset bytes in
        (ok added, record { torrents = insert t torrent' s.torrents })
  ]
]

pub read_file : File → CacheError → ByteRange → ℕ → ℕ → Result CacheError (List ℕ)
read_file f absent range offset n =
    if Extents.covers f.extents range
    then ok_or (read_blocks offset n f.blocks) absent
    else err absent

pub read : MemoryStore → InfoHash → FileIndex → ℕ → ℕ → Result CacheError (List ℕ)
read s t file offset n = do
  torrent ← ok_or (lookup t s.torrents) (unknown_torrent t)
  range ← check_range torrent.layout t file offset n
  f ← ok_or (get_elem? torrent.files file.index) (missing t file range)
  read_file f (missing t file range) range offset n

pub remove_torrent : MemoryStore → InfoHash → Outcome MemoryStore (Unit {0})
remove_torrent s t = (ok tt, record { torrents = remove t s.torrents })

-- The trait's default bodies.
pub piece_completed : MemoryStore → InfoHash → PieceIndex → Outcome MemoryStore (Unit {0})
piece_completed s t piece = (ok tt, s)

pub discard_except : MemoryStore → (InfoHash → Bool) → Outcome MemoryStore (Unit {0})
discard_except s keep = (ok tt, s)

abbrev pub memory_store : PieceStore MemoryStore
memory_store = record {
  open_torrent = open_torrent;
  write = write;
  read = read;
  remove_torrent = remove_torrent;
  piece_completed = piece_completed;
  discard_except = discard_except;
}
