-- ===== src/Cache/Disk/Store/Retry.antt =====
-- What is left when a manifest cannot be written.
use rustorr.Base.{
  ℕ, ◌≡◌, ap, ◌∙◌, false, some, List, ◌==◌, ok, err, arith, length, get_elem?, get_elem?-set_self,
  get_elem?-IsBelow, Option-cases, inl, inr,
}
use rustorr.Base.Map.{lookup, insert, lookup-insert, beq_self}
use rustorr.Domain.Hash.{InfoHash, info_hash_eq}
use rustorr.Domain.Index.{FileIndex}
use rustorr.Domain.Range.{ByteRange, IsOrdered}
use rustorr.Cache.Error.{CacheError}
use rustorr.Cache.Extents.{Extents}
use rustorr.Cache.Extents
use rustorr.Cache.Extents.Bitmap.{count_none}
use rustorr.Cache.Extents.Bytes.{largest}
use rustorr.Cache.Extents.Valid.{IsCanonical, insert-eq-bitmap, insert-IsCanonical, holds-insert}
use rustorr.Cache.Layout.{check_range}
use rustorr.Cache.Disk.FileSystem.{FileSystem}
use rustorr.Cache.Disk.Manifest.{DiskTorrent}
use rustorr.Cache.Disk.Store.{
  DiskStore, file_path, write_manifest, write_bytes, insert_range, record_range, write_torrent,
  write,
}

-- Bytes that are held already add nothing.
pub insert_again :
    (x : Extents) (r : ByteRange)
    → IsCanonical x
    → IsOrdered r
    → (Extents.insert (Extents.insert x r).0 r).1 ≡ 0
insert_again x r v o =
    let x' = (Extents.insert x r).0 in
    let v' = insert-IsCanonical x r v o in
    let same = insert-eq-bitmap x' r largest v' o v'.in_word (omega (arith, o.in_word)) in
    same.1 ∙ count_none largest _ (λ n. ground (arith, holds-insert x r n v o))

write_torrent-put :
    {F : Type 0} (fs : FileSystem F) (s : DiskStore F) (t : InfoHash) (torrent : DiskTorrent)
    (file : FileIndex) (offset : ℕ) (bytes : List ℕ) (range : ByteRange) (f : F)
    → write_bytes fs (file_path torrent.dir file.index) bytes offset s.files ≡ (ok tt, f)
    → write_torrent fs s t torrent file range offset bytes
      ≡ record_range fs (record s { files = f }) t (insert_range torrent file range)
unfolding write_torrent
write_torrent-put fs s t torrent file offset bytes range f put =
    ap
      (λ r. elim r.0 [
        | err e ↦ (err e, record s { files = r.1 })
        | ok u ↦ record_range fs (record s { files = r.1 }) t (insert_range torrent file range)
      ])
      put

write-put :
    {F : Type 0} (fs : FileSystem F) (s : DiskStore F) (t : InfoHash) (torrent : DiskTorrent)
    (file : FileIndex) (offset : ℕ) (bytes : List ℕ) (range : ByteRange) (f : F)
    → lookup t s.torrents ≡ some torrent
    → check_range torrent.layout t file offset (length bytes) ≡ ok range
    → (length bytes == 0) ≡ false
    → write_bytes fs (file_path torrent.dir file.index) bytes offset s.files ≡ (ok tt, f)
    → write fs s t file offset bytes
      ≡ record_range fs (record s { files = f }) t (insert_range torrent file range)
unfolding write
write-put fs s t torrent file offset bytes range f found checked some_bytes put = rw (
  write,
  found,
  checked,
  some_bytes,
  write_torrent-put fs s t torrent file offset bytes range f put,
)

record_range-failed :
    {F : Type 0} (fs : FileSystem F) (s : DiskStore F) (t : InfoHash) (p : DiskTorrent × ℕ) (f : F)
    (e : CacheError)
    → write_manifest fs p.0 s.files ≡ (err e, f)
    → record_range fs s t p ≡ (err e, record s { files = f; torrents = insert t p.0 s.torrents })
unfolding record_range
record_range-failed fs s t p f e bad = rw (record_range, bad, bad)

record_range-written :
    {F : Type 0} (fs : FileSystem F) (s : DiskStore F) (t : InfoHash) (p : DiskTorrent × ℕ) (f : F)
    → write_manifest fs p.0 s.files ≡ (ok tt, f)
    → record_range fs s t p ≡ (ok p.1, record s { files = f; torrents = insert t p.0 s.torrents })
unfolding record_range
record_range-written fs s t p f good = rw (record_range, good, good)

insert_range-again :
    (torrent : DiskTorrent) (file : FileIndex) (range : ByteRange) (x : Extents)
    → get_elem? torrent.extents file.index ≡ some x
    → IsCanonical x
    → IsOrdered range
    → (insert_range (insert_range torrent file range).0 file range).1 ≡ 0
unfolding insert_range
insert_range-again torrent file range x has c o =
    let below = get_elem?-IsBelow torrent.extents file.index x has in
    rw (
      insert_range,
      has,
      get_elem?-set_self torrent.extents file.index (Extents.insert x range).0 below,
      insert_again x range c o,
    )

insert_range-layout :
    (torrent : DiskTorrent) (file : FileIndex) (range : ByteRange)
    → ((insert_range torrent file range).0.layout ≡ torrent.layout)
      × ((insert_range torrent file range).0.dir ≡ torrent.dir)
unfolding insert_range
insert_range-layout torrent file range =
    elim (Option-cases (get_elem? torrent.extents file.index)) [
      | inl none_there ↦ (rw (insert_range, none_there), rw (insert_range, none_there))
      | inr (x, has) ↦ (rw (insert_range, has), rw (insert_range, has))
    ]

-- When the bytes of a write are on the file and the manifest cannot be written, the write is an
-- error, but the torrent in the store has the range: a second write of the same bytes, whose file and
-- manifest are then written, answers that nothing was added.
pub write-write_failed :
    {F : Type 0} (fs : FileSystem F) (s : DiskStore F) (t : InfoHash) (torrent : DiskTorrent)
    (file : FileIndex) (offset : ℕ) (bytes : List ℕ) (range : ByteRange) (x : Extents)
    (f f' f₁ f₂ : F) (e : CacheError)
    → lookup t s.torrents ≡ some torrent
    → check_range torrent.layout t file offset (length bytes) ≡ ok range
    → (length bytes == 0) ≡ false
    → get_elem? torrent.extents file.index ≡ some x
    → IsCanonical x
    → IsOrdered range
    → write_bytes fs (file_path torrent.dir file.index) bytes offset s.files ≡ (ok tt, f)
    → write_manifest fs (insert_range torrent file range).0 f ≡ (err e, f')
    → write_bytes fs (file_path torrent.dir file.index) bytes offset f' ≡ (ok tt, f₁)
    → write_manifest fs (insert_range (insert_range torrent file range).0 file range).0 f₁
      ≡ (ok tt, f₂)
    → let failed = write fs s t file offset bytes in
      (failed.0 ≡ err e) × ((write fs failed.1 t file offset bytes).0 ≡ ok 0)
write-write_failed fs s t torrent file offset bytes range x f f' f₁ f₂ e found checked some_bytes
      has c o put bad put' good =
    let torrent' = (insert_range torrent file range).0 in
    let kept = insert_range-layout torrent file range in
    let first =
      write-put fs s t torrent file offset bytes range f found checked some_bytes put
      ∙ record_range-failed fs (record s { files = f }) t (insert_range torrent file range) f' e
          bad in
    let s' = record s { files = f'; torrents = insert t torrent' s.torrents } in
    let found' : lookup t s'.torrents ≡ some torrent' =
      lookup-insert t t torrent' s.torrents ∙ rw (beq_self t) in
    let checked' : check_range torrent'.layout t file offset (length bytes) ≡ ok range =
      ap (λ l. check_range l t file offset (length bytes)) kept.0 ∙ checked in
    let put_again =
      ap (λ d. write_bytes fs (file_path d file.index) bytes offset f') kept.1 ∙ put' in
    let second =
      write-put fs s' t torrent' file offset bytes range f₁ found' checked' some_bytes put_again
      ∙ record_range-written fs (record s' { files = f₁ }) t (insert_range torrent' file range) f₂
          good in
    (
      ap (λ r. r.0) first,
      ap (λ r. (write fs r.1 t file offset bytes).0) first
          ∙ ap (λ r. r.0) second
          ∙ ap ok (insert_range-again torrent file range x has c o),
    )
