-- ===== src/Cache/Disk/Store/Tests.antt =====
-- A torrent with three bytes on disk: its manifest and its recovery; and a store whose manifest cannot
-- be written once.
use rustorr.Base.{
  ℕ, ◌≡◌, refl, Bool, true, false, List, [], ◌∷◌, ◌++◌, none, some, ok, err, arith, ◌==◌,
  if◌then◌else◌, replicate, length, ap, ◌∙◌, sym, Option, inr, Result,
}
use rustorr.Base.Map.{lookup, insert}
use rustorr.Domain.Hash.{InfoHash, hash_eq, display, info_hash_eq}
use rustorr.Domain.Hash.Digits.{digit_char}
use rustorr.Text.{text_eq, to_string}
use rustorr.Domain.Index.{FileIndex}
use rustorr.Domain.Range.{from_start_len, fits_within}
use rustorr.Cache.Error.{io}
use rustorr.Cache.Extents
use rustorr.Cache.Extents.{Extents}
use rustorr.Cache.Extents.Valid.{IsCanonical, empty-IsCanonical}
use rustorr.Cache.Layout.{TorrentLayout, check_range, file_length, file_count}
use rustorr.Cache.Disk.FileSystem.{
  FilePath, path_eq, put_at, IoError, IsFileSystem, FileSystem, not_found, failure,
}
use rustorr.Cache.Disk.Manifest.{DiskTorrent, manifest, restore}
use rustorr.Cache.Disk.Manifest.RoundTrip.{IsDiskTorrent, sum_totals, restore-manifest}
use rustorr.Cache.Disk.Store.{
  DiskStore, prepare_dir, new, open_torrent, write, empty_torrent, file_path, completed_pieces,
  create_manifest_context, write_bytes, write_manifest, insert_range,
}
use rustorr.Cache.Disk.Store.Retry.{write-write_failed}
use rustorr.Cache.Disk.Store.Recovery.{open_torrent-write_manifest}
use rustorr.Cache.Extents.Spans.{measure}
use rustorr.Cache.Layout.Laws.{IsLayout, sum}

abbrev hash : InfoHash
hash = record { bytes = 1 ∷ [] }

abbrev first : FileIndex
first = record { index = 0 }

abbrev layout : TorrentLayout
layout = record { piece_length = 100; file_lengths = 150 ∷ []; total_length = 150; piece_count = 2 }

-- No content is kept; the state tells whether the next file cannot be created.
abbrev full_once : FileSystem Bool
full_once = record {
  read_to_string = λ f p. none;
  file_len = λ f p. none;
  read_dir = λ f p. err not_found;
  remove_dir_all = λ f p. (ok tt, f);
  create_dir_all = λ f p. (ok tt, f);
  open_write = λ f p. (ok tt, f);
  write_all_at = λ f p bytes at. (ok tt, f);
  create = λ f p. (if f then err (failure 28) else ok tt, false);
  write_all = λ f p s. (ok tt, f);
  sync_all = λ f p. (ok tt, f);
  rename = λ f p q. (ok tt, f);
  open_read = λ f p. err not_found;
  read_exact_at = λ f p at n. err (failure 5);
}

abbrev torrent : DiskTorrent
torrent = empty_torrent [] layout

abbrev opened : DiskStore Bool
opened = record { files = true; root = []; torrents = insert hash torrent [] }

abbrev data_bytes : List ℕ
data_bytes = 7 ∷ 8 ∷ 9 ∷ []

write-write_failed_example :
    ((write full_once opened hash first 140 data_bytes).0 ≡ err (io create_manifest_context))
    × ((write full_once
          (write full_once opened hash first 140 data_bytes).1
          hash
          first
          140
          data_bytes).0
        ≡ ok 0)
unfolding insert lookup empty_torrent hash_eq check_range file_length from_start_len fits_within
    file_count write_bytes write_manifest insert_range
write-write_failed_example =
    write-write_failed full_once opened hash torrent first 140 data_bytes
      (record { start = 140; end = 143 }) Extents.empty true false false false
      (io create_manifest_context) refl refl refl refl empty-IsCanonical
      (record { ordered = omega arith; in_word = omega arith }) refl refl refl refl

abbrev some_bytes : Extents
some_bytes = record { spans = record { start = 140; end = 143 } ∷ []; total = 3 }

abbrev kept : DiskTorrent
kept = record {
  layout = layout;
  dir = [] ++ display hash ∷ [];
  extents = some_bytes ∷ [];
  completed = false ∷ true ∷ [];
}

abbrev kept_len : ℕ → Option ℕ
kept_len i = if i == 0 then some 143 else none

layout-IsLayout : IsLayout layout
unfolding sum
layout-IsLayout = omega arith

some_bytes-IsCanonical : IsCanonical some_bytes
unfolding measure
some_bytes-IsCanonical = record {
  separated = (omega arith, omega arith, tt);
  in_word = (omega arith, tt);
  total = refl;
}

kept-IsDiskTorrent : (file_len : ℕ → Option ℕ) → file_len 0 ≡ some 143 → IsDiskTorrent file_len kept
unfolding file_count file_length sum_totals
kept-IsDiskTorrent file_len h = record {
  layout = layout-IsLayout;
  piece_length = omega arith;
  piece_count = omega arith;
  files = omega arith;
  count = refl;
  stored = (
    record {
      canonical = some_bytes-IsCanonical;
      length = 150;
      has_file = refl;
      inside = (omega arith, tt);
      on_disk = inr (143, h, (omega arith, tt));
    },
    tt,
  );
  total = omega arith;
  completed = refl;
}

restore-manifest_example :
    restore (some (manifest kept)) kept_len layout ≡ some (some_bytes ∷ [], false ∷ true ∷ [], 3)
unfolding sum_totals
restore-manifest_example = restore-manifest kept_len kept (kept-IsDiskTorrent kept_len refl)

-- The contents of files, by path.
abbrev Disk : Type 0
Disk = FilePath → Option (List ℕ)

abbrev put_file : Disk → FilePath → Option (List ℕ) → Disk
put_file f p content q = if path_eq p q then content else f q

abbrev content_or_empty : Option (List ℕ) → List ℕ
content_or_empty none = []
content_or_empty (some c) = c

abbrev changed :
    (Disk → FilePath → Option (List ℕ)) → Disk → FilePath → Result IoError (Unit {0}) × Disk
changed content f p = (ok tt, put_file f p (content f p))

abbrev on_disk : FileSystem Disk
on_disk = record {
  read_to_string = λ f p. f p;
  file_len = λ f p. elim (f p) [ none ↦ none | some c ↦ some (length c) ];
  read_dir = λ f p. err not_found;
  remove_dir_all = λ f p. (ok tt, f);
  create_dir_all = λ f p. (ok tt, f);
  open_write = changed (λ f p. some (elim (f p) [ none ↦ [] | some c ↦ c ]));
  write_all_at =
      λ f p bytes at. changed (λ g q. some (put_at at bytes (content_or_empty (g q)))) f p;
  create = changed (λ f p. some []);
  write_all = λ f p s. changed (λ g q. some (content_or_empty (g q) ++ s)) f p;
  sync_all = λ f p. (ok tt, f);
  rename = λ f p q. (ok tt, put_file (put_file f p none) q (f p));
  open_read = λ f p. err not_found;
  read_exact_at = λ f p at n. err (failure 5);
}

on_disk-IsFileSystem : IsFileSystem on_disk
on_disk-IsFileSystem = record {
  content = λ f. f;
  reads = λ f p c has ascii. has;
  file_lens = λ f p. refl;
  opened = λ f f' p q e. ap (λ r. r.1 q) (sym e);
  written_at = λ f f' p q c bytes at has e.
      ap (λ r. r.1 q) (sym e)
      ∙ ap (λ o. if path_eq p q then some (put_at at bytes (content_or_empty o)) else f q) has;
  created = λ f f' p q e. ap (λ r. r.1 q) (sym e);
  written = λ f f' p q c s has ascii e.
      ap (λ r. r.1 q) (sym e)
      ∙ ap (λ o. if path_eq p q then some (content_or_empty o ++ s) else f q) has;
  synced = λ f f' p q e. ap (λ r. r.1 q) (sym e);
  renamed = λ f f' p p' q e. ap (λ r. r.1 q) (sym e);
}

abbrev disk : Disk
disk p = if path_eq p (file_path kept.dir 0) then some (replicate 143 0) else none

abbrev saved : Disk
saved = (write_manifest on_disk kept disk).1

open_torrent-write_manifest_example : open_torrent on_disk (new saved []) hash layout ≡ (
  ok (record { stored_bytes = 3; completed_pieces = record { index = 1 } ∷ [] }),
  record { files = saved; root = []; torrents = insert hash kept [] },
)
unfolding sum_totals completed_pieces write_manifest path_eq text_eq display digit_char to_string
    prepare_dir
open_torrent-write_manifest_example =
    open_torrent-write_manifest on_disk on_disk-IsFileSystem [] hash kept disk saved saved refl refl
      (kept-IsDiskTorrent (λ i. on_disk.file_len saved (file_path kept.dir i)) refl) refl
