-- ===== src/Cache/Memory/Counting.antt =====
-- The memory store counts the bytes that it stores: what it answers to a write is how many of the
-- torrent's bytes were not covered before.
mod Tests
use rustorr.Base.{
  ℕ, zero, suc, ◌+◌, ◌%◌, ◌<◌, ◌≡◌, refl, ap, sym, ◌∙◌, Bool, true, false, Option, none, some, List,
  [], ◌∷◌, length, get_elem?, set, replicate, arith, Result, ok, err, Bool-cases, Option-cases,
  Result-cases, inl, inr, u64_mod, wrapping_add, if◌then◌else◌,
}
use rustorr.Base.Map.{lookup, insert, remove, lookup-insert, lookup-remove}
use rustorr.Domain.Hash.{InfoHash, hash_eq, hash_eq_iff, info_hash_eq}
use rustorr.Domain.Index.{FileIndex, PieceIndex}
use rustorr.Domain.Range.{ByteRange}
use rustorr.Domain.Range
use rustorr.Cache.Extents
use rustorr.Cache.Error.{CacheError}
use rustorr.Cache.Layout.{TorrentLayout, check_range, file_count}
use rustorr.Cache.Store.{Recovered}
use rustorr.Cache.Memory.{
  File, Torrent, MemoryStore, new, open_torrent, write, write_file, write_torrent, empty_file,
  remove_torrent, piece_completed, discard_except, memory_store,
}
use rustorr.Cache.Memory.Contents.{write-err, write_torrent_lem, Writes, write-Writes}
use rustorr.Cache.Registry.Threads.{IsCounting}

unfoldable pub total_of_files : List File → ℕ
total_of_files [] = 0
total_of_files (f ∷ fs) = wrapping_add f.extents.total (total_of_files fs)

unfoldable pub total_of : MemoryStore → InfoHash → ℕ
unfolding total_of_files
total_of s t = elim (lookup t s.torrents) [ none ↦ 0 | some torrent ↦ total_of_files torrent.files ]

total_of_files-in_word : (fs : List File) → total_of_files fs < u64_mod
unfolding total_of_files wrapping_add
total_of_files-in_word [] = omega arith
total_of_files-in_word (f ∷ fs) = omega arith

total_of-in_word : (s : MemoryStore) (t : InfoHash) → total_of s t < u64_mod
unfolding total_of
total_of-in_word s t = elim (Option-cases (lookup t s.torrents)) [
  | inl q ↦ ground (arith, q)
  | inr (torrent, q) ↦ rw (total_of, q) (total_of_files-in_word torrent.files)
]

total_of_files-set :
    (fs : List File) (i n : ℕ) (f g : File)
    → get_elem? fs i ≡ some f
    → wrapping_add 0 g.extents.total ≡ wrapping_add f.extents.total n
    → total_of_files (set fs i g) ≡ wrapping_add (total_of_files fs) n
unfolding total_of_files wrapping_add
total_of_files-set [] i n f g q e = cc
total_of_files-set (h ∷ fs) zero n f g q e =
    let same : h ≡ f = ground (arith, q) in
    let total : h.extents.total ≡ f.extents.total = ap (λ x. x.extents.total) same in
    omega (arith, e, total)
total_of_files-set (h ∷ fs) (suc i) n f g q e = omega (arith, total_of_files-set fs i n f g q e)

total-write_file :
    (f : File) (r : ByteRange) (offset : ℕ) (bytes : List ℕ)
    → wrapping_add 0 (write_file f r offset bytes).0.extents.total
      ≡ wrapping_add f.extents.total (write_file f r offset bytes).1
unfolding write_file Extents.insert wrapping_add
total-write_file f r offset bytes = elim (Bool-cases (Range.is_empty r)) [
  | inl e ↦ ground (arith, e)
  | inr e ↦ ground (arith, e)
]

total-write_torrent :
    (torrent : Torrent) (file : FileIndex) (r : ByteRange) (offset : ℕ) (bytes : List ℕ)
    → total_of_files (write_torrent torrent file r offset bytes).0.files
      ≡ wrapping_add (total_of_files torrent.files) (write_torrent torrent file r offset bytes).1
unfolding write_torrent wrapping_add
total-write_torrent torrent file r offset bytes =
    elim (Option-cases (get_elem? torrent.files file.index)) [
      | inl q ↦ ground (arith, q, total_of_files-in_word torrent.files)
      | inr (f, q) ↦
          let after = write_torrent_lem torrent file r offset bytes f q in
          rw after (
            total_of_files-set torrent.files file.index (write_file f r offset bytes).1 f
              (write_file f r offset bytes).0 q (total-write_file f r offset bytes))
    ]

total_of-insert :
    (s : MemoryStore) (t u : InfoHash) (torrent : Torrent)
    → total_of (record { torrents = insert t torrent s.torrents }) u
      ≡ (if hash_eq t u then total_of_files torrent.files else total_of s u)
unfolding total_of
total_of-insert s t u torrent = elim (Bool-cases (hash_eq t u)) [
  | inl e ↦ ground (arith, lookup-insert t u torrent s.torrents, e)
  | inr e ↦ ground (arith, lookup-insert t u torrent s.torrents, e)
]

total-write :
    (s s' : MemoryStore) (t : InfoHash) (file : FileIndex) (offset n : ℕ) (bytes : List ℕ)
    → write s t file offset bytes ≡ (ok n, s')
    → total_of s' t ≡ wrapping_add (total_of s t) n
unfolding total_of write
total-write s s' t file offset n bytes e = elim (Option-cases (lookup t s.torrents)) [
  | inl q ↦ ground (arith, q)
  | inr (torrent, q) ↦
      elim (Result-cases (check_range torrent.layout t file offset (length bytes))) [
        | inl (r, w) ↦
            let after = write_torrent torrent file r offset bytes in
            ground (
              arith,
              e,
              q,
              w,
              total_of-insert s t t after.0,
              hash_eq_iff t t,
              total-write_torrent torrent file r offset bytes,
            )
        | inr (x, w) ↦ ground (arith, q, w)
      ]
]

write_other :
    (s : MemoryStore) (t u : InfoHash) (file : FileIndex) (offset : ℕ) (bytes : List ℕ)
    → hash_eq t u ≡ false
    → total_of (write s t file offset bytes).1 u ≡ total_of s u
unfolding write
write_other s t u file offset bytes other = elim (Option-cases (lookup t s.torrents)) [
  | inl q ↦ ground (arith, q)
  | inr (torrent, q) ↦
      elim (Result-cases (check_range torrent.layout t file offset (length bytes))) [
        | inl (r, w) ↦
            rw (write, q, w)
              (total_of-insert s t u (write_torrent torrent file r offset bytes).0 ∙ rw other)
        | inr (x, w) ↦ ground (arith, q, w)
      ]
]

total-empty : (n : ℕ) → total_of_files (replicate n empty_file) ≡ 0
unfolding total_of_files wrapping_add empty_file Extents.empty
total-empty zero = refl
total-empty (suc n) = omega (arith, total-empty n)

opened_total :
    (s : MemoryStore) (t u : InfoHash) (layout : TorrentLayout)
    → total_of (open_torrent s t layout).1 u ≡ (if hash_eq t u then 0 else total_of s u)
unfolding open_torrent
opened_total s t u layout =
    let fresh : Torrent = record {
      layout = layout;
      files = replicate (file_count layout) empty_file;
    } in
    total_of-insert s t u fresh ∙ rw (total-empty (file_count layout)) refl

pub memory_store-IsCounting : IsCounting memory_store total_of
unfolding total_of open_torrent remove_torrent piece_completed discard_except
memory_store-IsCounting = record {
  in_word = total_of-in_word;
  opened = λ s s' t layout r e. ground (arith, e, opened_total s t t layout, hash_eq_iff t t);
  open_other = λ s t u layout other. opened_total s t u layout ∙ rw other;
  wrote = λ s s' t file offset n bytes e. total-write s s' t file offset n bytes e;
  write_failed = λ s s' t file offset bytes x e.
      ap (λ y. total_of y t) (write-err s s' t file offset bytes x e);
  write_other = λ s t u file offset bytes other. write_other s t u file offset bytes other;
  remove_failed = λ s s' t x e. cc;
  remove_other = λ s t u other. ground (arith, lookup-remove t u s.torrents, other);
  piece = λ s t u p. refl;
  discard = λ s keep u. refl;
}
