-- ===== src/Cache/Memory/Reads.antt =====
-- Reading from the memory store, against the partial map of bytes.
use rustorr.Base.{
  ℕ, zero, suc, ◌+◌, ◌-◌, ◌<◌, ◌≡◌, ◌↔◌, refl, ap, ◌∙◌, sym, true, some, List, [], ◌∷◌, length,
  get_or, get_elem?, arith, ok, u64_mod,
}
use rustorr.Base.Map.{lookup, lookup-insert, beq_self}
use rustorr.Domain.Hash.{InfoHash, hash_eq_iff, info_hash_eq}
use rustorr.Domain.Index.{FileIndex}
use rustorr.Domain.Range.{ByteRange}
use rustorr.Cache.Error.{CacheError, missing}
use rustorr.Cache.Extents.Spans.{holds}
use rustorr.Cache.Layout.{check_range}
use rustorr.Cache.Memory.Blocks.{BlockMap}
use rustorr.Cache.Memory.Blocks.Bytes.{byte_at}
use rustorr.Cache.Memory.Blocks.Loops.{bytes_from}
use rustorr.Cache.Memory.Files.{
  IsFile, stored_in, range_of, AllStored, read_file-stored, read_file-ok,
}
use rustorr.Cache.Memory.Contents.{
  IsStore, byte_of_torrent, stored, check_range-IsAccepted, get_elem?-below, write-Writes,
  stored-write,
}
use rustorr.Cache.Memory.{File, Torrent, MemoryStore, write, write_torrent, read, read_file}

length-bytes_from : (b : BlockMap) (position n : ℕ) → length (bytes_from b position n) ≡ n
unfolding bytes_from
length-bytes_from b position zero = refl
length-bytes_from b position (suc n) = ap suc (length-bytes_from b (position + 1) n)

get_or-bytes_from :
    (b : BlockMap) (position n i : ℕ)
    → i < n
    → get_or (bytes_from b position n) i 0 ≡ byte_at b (position + i)
unfolding bytes_from
get_or-bytes_from b position zero i h = absurd (omega arith)
get_or-bytes_from b position (suc n) zero h = ground arith
get_or-bytes_from b position (suc n) (suc i) h =
    ground (arith, get_or-bytes_from b (position + 1) n i (omega arith))

-- A list is known by its length and its entries.
list_ext :
    (xs ys : List ℕ)
    → length xs ≡ length ys
    → ((i : ℕ) → i < length xs → get_or xs i 0 ≡ get_or ys i 0)
    → xs ≡ ys
list_ext [] [] e h = refl
list_ext [] (y ∷ ys) e h = absurd (omega arith)
list_ext (x ∷ xs) [] e h = absurd (omega arith)
list_ext (x ∷ xs) (y ∷ ys) e h =
    ground (arith, h 0 (omega arith), list_ext xs ys (omega arith) (λ i k. h (suc i) (omega arith)))

-- The `n` bytes from `offset` on are stored, and are these.
pub record AreStored (s : MemoryStore) (t : InfoHash) (file : FileIndex) (offset n : ℕ)
    (bytes : List ℕ) : Type 0 where
  pub count : length bytes ≡ n
  pub each : (i : ℕ) → i < n → stored s t file (offset + i) ≡ some (get_or bytes i 0)

read_lem :
    (s : MemoryStore) (t : InfoHash) (file : FileIndex) (offset n : ℕ) (torrent : Torrent)
    (r : ByteRange) (f : File)
    → lookup t s.torrents ≡ some torrent
    → check_range torrent.layout t file offset n ≡ ok r
    → get_elem? torrent.files file.index ≡ some f
    → (read s t file offset n ≡ read_file f (missing t file r) r offset n)
      × ((i : ℕ) → stored s t file i ≡ stored_in f i)
unfolding read stored byte_of_torrent
read_lem s t file offset n torrent r f p q e = (ground (arith, p, q, e), λ i. ground (arith, p, e))

stored_in-some :
    (f : File) (i b : ℕ)
    → stored_in f i ≡ some b
    → (holds f.extents.spans i ≡ true) × (b ≡ byte_at f.blocks i)
unfolding stored_in
stored_in-some f i b e = ground arith

stored_in-held :
    (f : File) (i : ℕ) → holds f.extents.spans i ≡ true → stored_in f i ≡ some (byte_at f.blocks i)
unfolding stored_in
stored_in-held f i e = rw e

module _ (f : File) (absent : CacheError) (offset n : ℕ) (v : IsFile f)
    (h : offset + n < u64_mod) where
  read_file-each :
      (bytes : List ℕ)
      → read_file f absent (range_of offset n) offset n ≡ ok bytes
      → (length bytes ≡ n) × ((i : ℕ) → i < n → stored_in f (offset + i) ≡ some (get_or bytes i 0))
  read_file-each bytes e =
      let held = read_file-ok f absent offset n bytes v h e in
      let same : bytes ≡ bytes_from f.blocks offset n =
        ground (arith, e, read_file-stored f absent offset n v h held) in
      rw same (
        length-bytes_from f.blocks offset n,
        λ i k.
            rw (get_or-bytes_from f.blocks offset n i k)
              (stored_in-held f (offset + i) (held (offset + i) (ground arith))),
      )

  read_file-returns :
      (bytes : List ℕ)
      → length bytes ≡ n
      → ((i : ℕ) → i < n → stored_in f (offset + i) ≡ some (get_or bytes i 0))
      → read_file f absent (range_of offset n) offset n ≡ ok bytes
  read_file-returns bytes e each =
      let held : AllStored f offset n = λ i w.
        let at : offset + (i - offset) ≡ i = ground arith in
        rw at at
          (stored_in-some f (offset + (i - offset)) _ (each (i - offset) (ground arith))).0 in
      let same =
        list_ext bytes (bytes_from f.blocks offset n)
          (e ∙ sym (length-bytes_from f.blocks offset n))
          (λ i k.
            (stored_in-some f (offset + i) _ (each i (omega arith))).1
            ∙ sym (get_or-bytes_from f.blocks offset n i (omega arith))) in
      rw same (read_file-stored f absent offset n v h held)

-- In a valid store, for an open torrent and a range that its layout accepts, a read returns some bytes
-- exactly when those are the bytes stored at each place of the range.
pub read-iff-AreStored :
    (s : MemoryStore) (t : InfoHash) (file : FileIndex) (offset n : ℕ) (torrent : Torrent)
    (r : ByteRange) (bytes : List ℕ)
    → IsStore s
    → lookup t s.torrents ≡ some torrent
    → check_range torrent.layout t file offset n ≡ ok r
    → (read s t file offset n ≡ ok bytes) ↔ AreStored s t file offset n bytes
read-iff-AreStored s t file offset n torrent r bytes v p q =
    let x = v.torrents t torrent p in
    let a = check_range-IsAccepted torrent t file offset n r x q in
    let (f, g) = get_elem?-below torrent.files file.index a.below in
    let (reads, bytes_at) = read_lem s t file offset n torrent r f p q g in
    let w = x.files file.index f g in
    rw (reads, a.range)
      (
        λ e.
            let (count, each) =
              read_file-each f (missing t file (range_of offset n)) offset n w a.in_word bytes e in
            record { count = count; each = λ i k. rw bytes_at (each i k) },
        λ b.
            read_file-returns f (missing t file (range_of offset n)) offset n w a.in_word bytes
              b.count (λ i k. rw bytes_at at (b.each i k)),
      )

layout-write_torrent :
    (torrent : Torrent) (file : FileIndex) (r : ByteRange) (offset : ℕ) (bytes : List ℕ)
    → (write_torrent torrent file r offset bytes).0.layout ≡ torrent.layout
unfolding write_torrent
layout-write_torrent torrent file r offset bytes = ground arith

-- In a valid store, bytes that a write has stored are read back at the same place.
pub read-write :
    (s s' : MemoryStore) (t : InfoHash) (file : FileIndex) (offset added : ℕ) (bytes : List ℕ)
    → IsStore s
    → write s t file offset bytes ≡ (ok added, s')
    → read s' t file offset (length bytes) ≡ ok bytes
read-write s s' t file offset added bytes v e =
    let w = write-Writes s s' t file offset added bytes e in
    let torrent' = (write_torrent w.torrent file w.range offset bytes).0 in
    let at = λ (n : ℕ). stored-write s s' t t file file offset added n bytes v e in
    let p : lookup t s'.torrents ≡ some torrent' =
      ground (arith, w.after, lookup-insert t t torrent' s.torrents, beq_self t) in
    let q : check_range torrent'.layout t file offset (length bytes) ≡ ok w.range =
      rw (layout-write_torrent w.torrent file w.range offset bytes) w.accepted in
    (read-iff-AreStored s' t file offset (length bytes) torrent' w.range bytes (at 0).0 p q).1
      (record { count = refl; each = λ i k. ground (arith, (at (offset + i)).1, hash_eq_iff t t) })
