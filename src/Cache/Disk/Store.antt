-- ===== src/Cache/Disk/Store.antt =====
-- `DiskStore` of crates/rustorr-cache/src/disk.rs, over a file system. A method is one step.
pub mod Recovery
pub mod Retry
mod Tests
use rustorr.Base.{
  ℕ, ◌+◌, ◌%◌, u32_mod, Bool, true, false, Option, none, some, List, [], ◌∷◌, ◌++◌, ◌&&◌, ◌||◌, not,
  ltb, ◌==◌, if◌then◌else◌, Result, ok, err, length, get_elem?, set, replicate,
}
use rustorr.Base.Map.{Map, lookup, insert}
use rustorr.Base.Map
use rustorr.Text.{Text, to_string}
use rustorr.Domain.Hash.{InfoHash, info_hash_eq, from_str, display}
use rustorr.Domain.Index.{FileIndex, PieceIndex}
use rustorr.Domain.Range.{ByteRange}
use rustorr.Cache.Error.{CacheError, unknown_torrent, missing, piece_out_of_range, io}
use rustorr.Cache.Extents.{Extents}
use rustorr.Cache.Extents
use rustorr.Cache.Layout.{TorrentLayout, check_range, file_count}
use rustorr.Cache.Store.{PieceStore, Recovered}
use rustorr.Cache.Disk.FileSystem.{
  FilePath, FileSystem, IoError, not_found, failure, Io, ◌>>=◌, ◌>>◌, with_context,
}
use rustorr.Cache.Disk.Manifest.{DiskTorrent, manifest, restore}

-- `.rustorr-cache-v1`
abbrev pub manifest_name : Text
manifest_name =
    b'.' ∷ b'r' ∷ b'u' ∷ b's' ∷ b't' ∷ b'o' ∷ b'r' ∷ b'r' ∷ b'-' ∷ b'c' ∷ b'a' ∷ b'c' ∷ b'h' ∷ b'e'
    ∷ b'-' ∷ b'v' ∷ b'1' ∷ []

-- `with_extension("tmp")`
abbrev pub temporary_name : Text
temporary_name = manifest_name ++ b'.' ∷ b't' ∷ b'm' ∷ b'p' ∷ []

abbrev pub manifest_path : FilePath → FilePath
manifest_path dir = dir ++ manifest_name ∷ []

abbrev pub temporary_path : FilePath → FilePath
temporary_path dir = dir ++ temporary_name ∷ []

abbrev pub file_path : FilePath → ℕ → FilePath
file_path dir i = dir ++ to_string i ∷ []

-- The contexts of errors, by number.
abbrev pub remove_context : ℕ
remove_context = 0

abbrev pub create_manifest_context : ℕ
create_manifest_context = 1

abbrev pub write_manifest_context : ℕ
write_manifest_context = 2

abbrev pub sync_context : ℕ
sync_context = 3

abbrev pub replace_context : ℕ
replace_context = 4

abbrev pub list_context : ℕ
list_context = 5

abbrev pub create_dir_context : ℕ
create_dir_context = 6

abbrev pub open_context : ℕ
open_context = 7

abbrev pub write_context : ℕ
write_context = 8

abbrev pub open_read_context : ℕ
open_read_context = 9

abbrev pub read_context : ℕ
read_context = 10

unfoldable pub empty_torrent : FilePath → TorrentLayout → DiskTorrent
empty_torrent dir layout = record {
  layout = layout;
  dir = dir;
  extents = replicate (file_count layout) Extents.empty;
  completed = replicate layout.piece_count false;
}

unfoldable pub completed_pieces : ℕ → List Bool → List PieceIndex
completed_pieces i [] = []
completed_pieces i (b ∷ bs) =
    let rest = completed_pieces (i + 1) bs in
    if b then record { index = i % u32_mod } ∷ rest else rest

pub record DiskStore (F : Type 0) : Type 0 where
  pub files : F
  pub root : FilePath
  pub torrents : Map InfoHash DiskTorrent

abbrev pub DiskReply : Type 0 → Type 0 → Type 0
DiskReply F A = Result CacheError A × DiskStore F

-- The name of an entry that has one.
abbrev pub path_name : Option Text → Text
path_name none = []
path_name (some name) = name

unfoldable pub new : {F : Type 0} → F → FilePath → DiskStore F
new files root = record { files = files; root = root; torrents = [] }

-- A step on the files alone.
abbrev pub on_files : {F A : Type 0} → DiskStore F → Result CacheError A × F → DiskReply F A
on_files s (r, files) = (r, record s { files = files })

-- `guard.extents[file].insert(range)`: the torrent with it and the bytes added. The range check has
-- refused an index past the files.
unfoldable pub insert_range : DiskTorrent → FileIndex → ByteRange → DiskTorrent × ℕ
insert_range torrent file range = elim (get_elem? torrent.extents file.index) [
  | none ↦ (torrent, 0)
  | some x ↦
      let (x', added) = Extents.insert x range in
      (record torrent { extents = set torrent.extents file.index x' }, added)
]

-- The name of a directory entry as an info hash.
unfoldable pub named_hash : Option Text → Option InfoHash
named_hash none = none
named_hash (some name) = elim (from_str name) [ ok t ↦ some t | err e ↦ none ]

module _ {F : Type 0} (fs : FileSystem F) where
  unfoldable pub remove_dir : FilePath → Io F (Unit {0})
  remove_dir dir f =
      let (r, f') = fs.remove_dir_all f dir in
      elim r [
        | ok u ↦ (ok tt, f')
        | err e ↦ elim e [ not_found ↦ (ok tt, f') | failure n ↦ (err (io remove_context), f') ]
      ]

  unfoldable pub write_manifest : DiskTorrent → Io F (Unit {0})
  write_manifest t = do
    with_context create_manifest_context (λ f. fs.create f (temporary_path t.dir))
    with_context write_manifest_context (λ f. fs.write_all f (temporary_path t.dir) (manifest t))
    with_context sync_context (λ f. fs.sync_all f (temporary_path t.dir))
    with_context replace_context (λ f. fs.rename f (temporary_path t.dir) (manifest_path t.dir))

  -- The torrent that a manifest gives back and its bytes stored, unless the torrent is open.
  unfoldable pub restored :
      DiskStore F → InfoHash → FilePath → TorrentLayout → Option (DiskTorrent × ℕ)
  restored s t dir layout = elim (lookup t s.torrents) [
    | some open_already ↦ none
    | none ↦
        elim (restore (fs.read_to_string s.files (manifest_path dir))
          (λ i. fs.file_len s.files (file_path dir i)) layout) [
            | none ↦ none
            | some (extents, completed, stored) ↦ some (
              record { layout = layout; dir = dir; extents = extents; completed = completed },
              stored,
            )
          ]
  ]

  unfoldable pub prepare_dir : Bool → FilePath → Io F (Unit {0})
  unfolding remove_dir
  prepare_dir true dir = with_context create_dir_context (λ f. fs.create_dir_all f dir)
  prepare_dir false dir = do
    remove_dir dir
    with_context create_dir_context (λ f. fs.create_dir_all f dir)

  -- The end of `open`: the torrent is registered unless its directory could not be prepared.
  unfoldable pub register :
      DiskStore F
      → InfoHash
      → DiskTorrent
      → ℕ
      → Result CacheError (Unit {0}) × F
      → DiskReply F Recovered
  unfolding completed_pieces
  register s t torrent stored (err e, f) = (err e, record s { files = f })
  register s t torrent stored (ok u, f) = (
    ok (record { stored_bytes = stored; completed_pieces = completed_pieces 0 torrent.completed }),
    record s { files = f; torrents = insert t torrent s.torrents },
  )

  unfoldable pub open_torrent : DiskStore F → InfoHash → TorrentLayout → DiskReply F Recovered
  unfolding restored prepare_dir register empty_torrent
  open_torrent s t layout =
      let dir = s.root ++ display t ∷ [] in
      elim (restored s t dir layout) [
        | some (torrent, stored) ↦ register s t torrent stored (prepare_dir true dir s.files)
        | none ↦ register s t (empty_torrent dir layout) 0 (prepare_dir false dir s.files)
      ]

  -- The bytes go on the file before the lock is taken again.
  unfoldable pub write_bytes : FilePath → List ℕ → ℕ → Io F (Unit {0})
  write_bytes p bytes offset = do
    with_context open_context (λ f. fs.open_write f p)
    with_context write_context (λ f. fs.write_all_at f p bytes offset)

  -- The extents are in the store also when the manifest cannot be written.
  unfoldable pub record_range : DiskStore F → InfoHash → DiskTorrent × ℕ → DiskReply F ℕ
  unfolding write_manifest
  record_range s t (torrent, added) =
      let (r, f) = write_manifest torrent s.files in
      let s' = record s { files = f; torrents = insert t torrent s.torrents } in
      elim r [ err e ↦ (err e, s') | ok u ↦ (ok added, s') ]

  unfoldable pub write_torrent :
      DiskStore F → InfoHash → DiskTorrent → FileIndex → ByteRange → ℕ → List ℕ → DiskReply F ℕ
  unfolding write_bytes insert_range record_range
  write_torrent s t torrent file range offset bytes =
      let (r, f) = write_bytes (file_path torrent.dir file.index) bytes offset s.files in
      elim r [
        | err e ↦ (err e, record s { files = f })
        | ok u ↦ record_range (record s { files = f }) t (insert_range torrent file range)
      ]

  unfoldable pub write : DiskStore F → InfoHash → FileIndex → ℕ → List ℕ → DiskReply F ℕ
  unfolding write_torrent
  write s t file offset bytes = elim (lookup t s.torrents) [
    | none ↦ (err (unknown_torrent t), s)
    | some torrent ↦ elim (check_range torrent.layout t file offset (length bytes)) [
      | err e ↦ (err e, s)
      | ok range ↦
          if length bytes == 0 then (ok 0, s) else write_torrent s t torrent file range offset bytes
    ]
  ]

  unfoldable pub read_bytes : DiskStore F → FilePath → ℕ → ℕ → Result CacheError (List ℕ)
  read_bytes s p offset n = if n == 0 then ok [] else elim (fs.open_read s.files p) [
    | err e ↦ err (io open_read_context)
    | ok u ↦ elim (fs.read_exact_at s.files p offset n) [
      | ok bytes ↦ ok bytes
      | err e ↦ err (io read_context)
    ]
  ]

  unfoldable pub read : DiskStore F → InfoHash → FileIndex → ℕ → ℕ → Result CacheError (List ℕ)
  unfolding read_bytes
  read s t file offset n = elim (lookup t s.torrents) [
    | none ↦ err (unknown_torrent t)
    | some torrent ↦ elim (check_range torrent.layout t file offset n) [
      | err e ↦ err e
      | ok range ↦ elim (get_elem? torrent.extents file.index) [
        | none ↦ err (missing t file range)
        | some x ↦
            if Extents.covers x range
            then read_bytes s (file_path torrent.dir file.index) offset n
            else err (missing t file range)
      ]
    ]
  ]

  unfoldable pub remove_torrent : DiskStore F → InfoHash → DiskReply F (Unit {0})
  unfolding remove_dir
  remove_torrent s t = elim (lookup t s.torrents) [
    | none ↦ (ok tt, s)
    | some torrent ↦
        on_files (record s { torrents = Map.remove t s.torrents }) (remove_dir torrent.dir s.files)
  ]

  unfoldable pub record_piece : DiskStore F → InfoHash → DiskTorrent → DiskReply F (Unit {0})
  unfolding write_manifest
  record_piece s t torrent =
      on_files (record s { torrents = insert t torrent s.torrents })
        (write_manifest torrent s.files)

  unfoldable pub piece_completed : DiskStore F → InfoHash → PieceIndex → DiskReply F (Unit {0})
  unfolding record_piece
  piece_completed s t piece = elim (lookup t s.torrents) [
    | none ↦ (err (unknown_torrent t), s)
    | some torrent ↦
        if ltb piece.index (length torrent.completed)
        then record_piece s t
            (record torrent { completed = set torrent.completed piece.index true })
        else (err (piece_out_of_range piece (length torrent.completed % u32_mod)), s)
  ]

  unfoldable pub is_open : DiskStore F → InfoHash → Bool
  is_open s t = elim (lookup t s.torrents) [ none ↦ false | some torrent ↦ true ]

  unfoldable pub discard_entries :
      DiskStore F → (InfoHash → Bool) → List (Result IoError (Option Text)) → Io F (Unit {0})
  unfolding remove_dir named_hash is_open
  discard_entries s keep [] f = (ok tt, f)
  discard_entries s keep (err e ∷ entries) f = (err (io list_context), f)
  discard_entries s keep (ok name ∷ entries) f =
      let rest = discard_entries s keep entries in
      elim (named_hash name) [
        | none ↦ rest f
        | some t ↦
            if not (keep t) && not (is_open s t)
            then (remove_dir (s.root ++ path_name name ∷ []) >> rest) f
            else rest f
      ]

  unfoldable pub discard_except : DiskStore F → (InfoHash → Bool) → DiskReply F (Unit {0})
  unfolding discard_entries
  discard_except s keep = elim (fs.read_dir s.files s.root) [
    | err e ↦ elim e [ not_found ↦ (ok tt, s) | failure n ↦ (err (io list_context), s) ]
    | ok entries ↦ on_files s (discard_entries s keep entries s.files)
  ]

  abbrev pub disk_store : PieceStore (DiskStore F)
  disk_store = record {
    open_torrent = open_torrent;
    write = write;
    read = read;
    remove_torrent = remove_torrent;
    piece_completed = piece_completed;
    discard_except = discard_except;
  }
