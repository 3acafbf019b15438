-- ===== src/Cache/Disk/Manifest.antt =====
-- The manifest of a torrent on disk, of crates/rustorr-cache/src/disk.rs: what `manifest` prints and
-- what `restore` makes of such a text and of the lengths of the torrent's files.
pub mod Lines
pub mod Fields
pub mod Entries
pub mod Ascii
pub mod RoundTrip
use rustorr.Base.{
  ℕ, zero, suc, ◌+◌, ◌%◌, Bool, true, false, Option, none, some, List, [], ◌∷◌, ◌++◌, map, ltb,
  ◌==◌, ◌&&◌, ◌||◌, not, if◌then◌else◌, u32_mod, checked_add, length, replicate, get_elem?, set,
}
use rustorr.Base.Map.{Map, lookup, insert, remove}
use rustorr.Base.Options.{◌>>=◌}
use rustorr.Text.{
  Text, text_eq, text_has_eq, is_empty_text, split, split_once, lines, join, parse_u64, to_string,
}
use rustorr.Cache.Disk.FileSystem.{FilePath}
use rustorr.Cache.Extents.{Extents, from_spans}
use rustorr.Cache.Extents.Spans.{Span}
use rustorr.Cache.Layout.{TorrentLayout, file_length, file_count}

pub record DiskTorrent : Type 0 where
  pub layout : TorrentLayout
  pub dir : FilePath
  pub extents : List Extents
  pub completed : List Bool

unfoldable pub joined_numbers : List ℕ → Text
joined_numbers ns = join b',' (map to_string ns)

-- The lengths of the files from an index on; `index as u32` wraps.
unfoldable pub lengths_from : TorrentLayout → ℕ → ℕ → List ℕ
lengths_from l i zero = []
lengths_from l i (suc n) =
    let rest = lengths_from l (i + 1) n in
    elim (file_length l (record { index = i % u32_mod })) [ none ↦ rest | some m ↦ m ∷ rest ]

unfoldable pub all_lengths : TorrentLayout → List ℕ
unfolding lengths_from
all_lengths l = lengths_from l 0 (file_count l)

unfoldable pub completed_from : ℕ → List Bool → List ℕ
completed_from i [] = []
completed_from i (b ∷ bs) = let rest = completed_from (i + 1) bs in if b then i ∷ rest else rest

-- `{start}-{end}`
unfoldable pub span_text : Span → Text
span_text s = to_string s.start ++ b'-' ∷ to_string s.end

unfoldable pub spans_text : Extents → Text
unfolding span_text
spans_text x = join b',' (map span_text x.spans)

abbrev pub version_key : Text
version_key = b'v' ∷ b'e' ∷ b'r' ∷ b's' ∷ b'i' ∷ b'o' ∷ b'n' ∷ []

abbrev pub piece_length_key : Text
piece_length_key =
    b'p' ∷ b'i' ∷ b'e' ∷ b'c' ∷ b'e' ∷ b'_' ∷ b'l' ∷ b'e' ∷ b'n' ∷ b'g' ∷ b't' ∷ b'h' ∷ []

abbrev pub files_key : Text
files_key = b'f' ∷ b'i' ∷ b'l' ∷ b'e' ∷ b's' ∷ []

abbrev pub pieces_key : Text
pieces_key = b'p' ∷ b'i' ∷ b'e' ∷ b'c' ∷ b'e' ∷ b's' ∷ []

abbrev pub extents_prefix : Text
extents_prefix = b'e' ∷ b'x' ∷ b't' ∷ b'e' ∷ b'n' ∷ b't' ∷ b's' ∷ b'.' ∷ []

-- `extents.{index}`
unfoldable pub extents_key : ℕ → Text
extents_key i = extents_prefix ++ to_string i

-- `{key}={value}` and a line feed.
unfoldable pub line : Text → Text → Text
line key value = key ++ b'=' ∷ (value ++ 10 ∷ [])

unfoldable pub extents_lines : ℕ → List Extents → Text
unfolding line extents_key spans_text
extents_lines i [] = []
extents_lines i (x ∷ xs) = line (extents_key i) (spans_text x) ++ extents_lines (i + 1) xs

unfoldable pub manifest : DiskTorrent → Text
unfolding line joined_numbers all_lengths completed_from extents_lines
manifest t =
    line version_key (b'1' ∷ [])
    ++ (line piece_length_key (to_string t.layout.piece_length)
        ++ (line files_key (joined_numbers (all_lengths t.layout))
            ++ (line pieces_key (joined_numbers (completed_from 0 t.completed))
                ++ extents_lines 0 t.extents)))

unfoldable pub parse_each : List Text → Option (List ℕ)
parse_each [] = some []
parse_each (s ∷ ss) = do n ← parse_u64 s; ns ← parse_each ss; some (n ∷ ns)

unfoldable pub parse_numbers : Text → Option (List ℕ)
unfolding parse_each
parse_numbers value = if is_empty_text value then some [] else parse_each (split b',' value)

-- The lines as keys and values; a key that comes again is refused.
unfoldable pub parse_lines : List Text → Map Text Text → Option (Map Text Text)
parse_lines [] values = some values
parse_lines (l ∷ ls) values = do
  entry ← split_once b'=' l
  elim (lookup entry.0 values) [
    | none ↦ parse_lines ls (insert entry.0 entry.1 values)
    | some v ↦ none
  ]

-- A piece that is marked twice, or is not there, is refused.
unfoldable pub mark_pieces : List ℕ → List Bool → Option (List Bool)
mark_pieces [] completed = some completed
mark_pieces (i ∷ is) completed = elim (get_elem? completed i) [
  | none ↦ none
  | some done ↦ elim done [ true ↦ none | false ↦ mark_pieces is (set completed i true) ]
]

unfoldable pub parse_span : Text → Option Span
parse_span s = do
  ends ← split_once b'-' s
  start ← parse_u64 ends.0
  end ← parse_u64 ends.1
  some (record { start = start; end = end })

unfoldable pub parse_span_list : List Text → Option (List Span)
unfolding parse_span
parse_span_list [] = some []
parse_span_list (s ∷ ss) = do p ← parse_span s; ps ← parse_span_list ss; some (p ∷ ps)

unfoldable pub parse_spans : Text → Option (List Span)
unfolding parse_span_list
parse_spans raw = if is_empty_text raw then some [] else parse_span_list (split b',' raw)

-- `any(|(_, end)| end > limit)`
unfoldable pub ends_past : ℕ → List Span → Bool
ends_past limit [] = false
ends_past limit (p ∷ ps) = ltb limit p.end || ends_past limit ps

unfoldable pub is_some_within : Option ℕ → List Span → Bool
unfolding ends_past
is_some_within none ps = false
is_some_within (some limit) ps = not (ends_past limit ps)

-- One file's spans: in its length, and in its file on disk if there are bytes.
unfoldable pub restore_file : (ℕ → Option ℕ) → TorrentLayout → ℕ → Text → Option Extents
unfolding parse_spans is_some_within
restore_file file_len l i raw = do
  spans ← parse_spans raw
  x ← from_spans spans
  if is_some_within (file_length l (record { index = i % u32_mod })) x.spans
        && (x.total == 0 || is_some_within (file_len i) x.spans)
      then some x
      else none

pub record Restored : Type 0 where
  pub extents : List Extents
  pub stored : ℕ
  -- The keys that no file has taken.
  pub values : Map Text Text

unfoldable pub restore_files : (ℕ → Option ℕ) → TorrentLayout → ℕ → ℕ → Restored → Option Restored
unfolding restore_file extents_key
restore_files file_len l i zero r = some r
restore_files file_len l i (suc n) r = do
  raw ← lookup (extents_key i) r.values
  x ← restore_file file_len l i raw
  stored ← checked_add r.stored x.total
  restore_files file_len l (i + 1) n (record {
    extents = r.extents ++ x ∷ [];
    stored = stored;
    values = remove (extents_key i) r.values;
  })

numbers_eq : List ℕ → List ℕ → Bool
numbers_eq [] [] = true
numbers_eq (x ∷ xs) (y ∷ ys) = x == y && numbers_eq xs ys
numbers_eq _ _ = false

unfoldable pub is_empty_map : Map Text Text → Bool
is_empty_map [] = true
is_empty_map (e ∷ m) = false

-- The pieces that the manifest lists, and its extents by file.
unfoldable pub restore_parts :
    (ℕ → Option ℕ) → TorrentLayout → List ℕ → Map Text Text → Option (List Extents × List Bool × ℕ)
unfolding mark_pieces restore_files is_empty_map
restore_parts file_len l pieces values = do
  completed ← mark_pieces pieces (replicate l.piece_count false)
  r ←
      restore_files file_len l 0 (file_count l)
        (record { extents = []; stored = 0; values = values })
  if is_empty_map r.values then some (r.extents, completed, r.stored) else none

unfoldable pub is_for : TorrentLayout → Text → ℕ → List ℕ → Bool
unfolding numbers_eq
is_for l version piece_length files =
    text_eq version (b'1' ∷ [])
    && (piece_length == l.piece_length && numbers_eq files (all_lengths l))

-- The value of a key, and the values without it.
unfoldable pub take_key : Text → Map Text Text → Option (Text × Map Text Text)
take_key key values = do value ← lookup key values; some (value, remove key values)

-- The extents of the files, the completed pieces and the bytes stored.
unfoldable pub restore_values :
    (ℕ → Option ℕ) → TorrentLayout → Map Text Text → Option (List Extents × List Bool × ℕ)
unfolding take_key parse_numbers is_for restore_parts
restore_values file_len l values = do
  version ← take_key version_key values
  raw_length ← take_key piece_length_key version.1
  piece_length ← parse_u64 raw_length.0
  raw_files ← take_key files_key raw_length.1
  files ← parse_numbers raw_files.0
  raw_pieces ← take_key pieces_key raw_files.1
  pieces ← parse_numbers raw_pieces.0
  if is_for l version.0 piece_length files
      then restore_parts file_len l pieces raw_pieces.1
      else none

-- `text` is the manifest's, `none` where it cannot be read; `file_len` gives the length of each file.
unfoldable pub restore :
    Option Text → (ℕ → Option ℕ) → TorrentLayout → Option (List Extents × List Bool × ℕ)
unfolding parse_lines restore_values
restore text file_len l = do
  s ← text
  values ← parse_lines (lines s) []
  restore_values file_len l values
