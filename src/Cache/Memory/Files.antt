-- ===== src/Cache/Memory/Files.antt =====
-- One file of the store: the bytes it has received, and what reading and writing do to them.
use rustorr.Base.{
  ℕ, ◌+◌, ◌-◌, ◌<◌, ◌≡◌, true, Option, none, some, List, ltb, leb, ◌&&◌, if◌then◌else◌, length,
  get_or, arith, ok, u64_mod,
}
use rustorr.Base.Map.{lookup}
use rustorr.Domain.Range.{ByteRange, IsOrdered}
use rustorr.Cache.Error.{CacheError}
use rustorr.Cache.Extents
use rustorr.Cache.Extents.Spans.{holds}
use rustorr.Cache.Extents.Valid.{
  IsCanonical, insert-IsCanonical, holds-insert, covers-iff-holds, empty-IsCanonical,
}
use rustorr.Cache.Memory.Blocks.Bytes.{byte_at, is_present, AreFull}
use rustorr.Cache.Memory.Blocks.Loops.{write_blocks-IsWritten, bytes_from, read_blocks-bytes_from}
use rustorr.Cache.Memory.{File, write_file, read_file, empty_file}

-- A byte that counts as stored has its block.
pub record IsFile (f : File) : Type 0 where
  pub canonical : IsCanonical f.extents
  pub full : AreFull f.blocks
  pub backed : (n : ℕ) → holds f.extents.spans n ≡ true → is_present f.blocks n ≡ true

-- The byte stored at `n`, if one is.
unfoldable pub stored_in : File → ℕ → Option ℕ
stored_in f n = if holds f.extents.spans n then some (byte_at f.blocks n) else none

abbrev pub range_of : ℕ → ℕ → ByteRange
range_of offset n = record { start = offset; end = offset + n }

pub empty_file-IsFile : IsFile empty_file
unfolding empty_file Extents.empty lookup holds
empty_file-IsFile = record {
  canonical = empty-IsCanonical;
  full = record { full = λ k b e. cc };
  backed = λ n e. cc;
}

pub write_file-IsFile :
    (f : File) (offset : ℕ) (bytes : List ℕ)
    → IsFile f
    → offset + length bytes < u64_mod
    → IsFile (write_file f (range_of offset (length bytes)) offset bytes).0
unfolding write_file
write_file-IsFile f offset bytes v h =
    let r = range_of offset (length bytes) in
    let o : IsOrdered r = record { ordered = omega arith; in_word = h } in
    let w = write_blocks-IsWritten offset bytes f.blocks v.full in
    record {
      canonical = insert-IsCanonical f.extents r v.canonical o;
      full = w.full;
      backed = λ n e.
          ground
            (arith, e, holds-insert f.extents r n v.canonical o, w.present n, w.kept n, v.backed n);
    }

pub stored_in-write :
    (f : File) (offset : ℕ) (bytes : List ℕ) (n : ℕ)
    → IsFile f
    → offset + length bytes < u64_mod
    → stored_in (write_file f (range_of offset (length bytes)) offset bytes).0 n ≡ (
        if leb offset n && ltb n (offset + length bytes)
        then some (get_or bytes (n - offset) 0)
        else stored_in f n)
unfolding write_file stored_in
stored_in-write f offset bytes n v h =
    let r = range_of offset (length bytes) in
    let o : IsOrdered r = record { ordered = omega arith; in_word = h } in
    let w = write_blocks-IsWritten offset bytes f.blocks v.full in
    ground (arith, holds-insert f.extents r n v.canonical o, w.contents n)

-- All `n` bytes from `offset` on are stored.
abbrev pub AllStored : File → ℕ → ℕ → Type 0
AllStored f offset n =
    (i : ℕ) → leb offset i && ltb i (offset + n) ≡ true → holds f.extents.spans i ≡ true

pub read_file-stored :
    (f : File) (absent : CacheError) (offset n : ℕ)
    → IsFile f
    → offset + n < u64_mod
    → AllStored f offset n
    → read_file f absent (range_of offset n) offset n ≡ ok (bytes_from f.blocks offset n)
unfolding read_file
read_file-stored f absent offset n v h held =
    let r = range_of offset n in
    let o : IsOrdered r = record { ordered = omega arith; in_word = h } in
    let c = (covers-iff-holds f.extents r v.canonical o).1 held in
    let read =
      read_blocks-bytes_from offset n f.blocks v.full
        (λ i a b. v.backed i (held i (ground arith))) in
    rw (c, read)

pub read_file-ok :
    (f : File) (absent : CacheError) (offset n : ℕ) (bytes : List ℕ)
    → IsFile f
    → offset + n < u64_mod
    → read_file f absent (range_of offset n) offset n ≡ ok bytes
    → AllStored f offset n
unfolding read_file
read_file-ok f absent offset n bytes v h e =
    let r = range_of offset n in
    let o : IsOrdered r = record { ordered = omega arith; in_word = h } in
    (covers-iff-holds f.extents r v.canonical o).0 (ground (arith, e))
