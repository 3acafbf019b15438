-- ===== src/Cache/Memory/Contents.antt =====
-- The memory store as a partial map of bytes, by torrent, file and offset.
use rustorr.Base.{
  ℕ, zero, suc, ◌+◌, ◌-◌, ◌<◌, ◌≡◌, refl, ◌∙◌, true, Option, none, some, List, [], ◌∷◌, ◌==◌, ltb,
  leb, ◌&&◌, if◌then◌else◌, length, get_or, get_elem?, set, replicate, arith, ok, err, Bool-cases,
  Option-cases, Result-cases, inl, inr, u64_mod, length-set, length-replicate, get_elem?-set_self,
  get_elem?-set_ne, get_elem?-IsBelow,
}
use rustorr.Base.Map.{lookup, insert, lookup-insert}
use rustorr.Domain.Hash.{InfoHash, hash_eq, hash_eq_iff, info_hash_eq}
use rustorr.Domain.Index.{FileIndex}
use rustorr.Domain.Range.{ByteRange}
use rustorr.Cache.Error.{CacheError}
use rustorr.Cache.Layout.{TorrentLayout, check_range, file_count, file_length}
use rustorr.Cache.Layout.Laws.{IsLayout, check_range_iff, file_length-in_word}
use rustorr.Cache.Memory.Files.{
  IsFile, stored_in, range_of, empty_file-IsFile, write_file-IsFile, stored_in-write,
}
use rustorr.Cache.Memory.{
  File, Torrent, MemoryStore, new, open_torrent, write, write_file, write_torrent, empty_file,
}

pub record IsTorrent (torrent : Torrent) : Type 0 where
  pub layout : IsLayout torrent.layout
  pub count : length torrent.files ≡ file_count torrent.layout
  pub files : (i : ℕ) (f : File) → get_elem? torrent.files i ≡ some f → IsFile f

pub record IsStore (s : MemoryStore) : Type 0 where
  pub torrents :
      (t : InfoHash) (torrent : Torrent) → lookup t s.torrents ≡ some torrent → IsTorrent torrent

-- The stored byte at an offset, if there is one.
unfoldable pub byte_of_torrent : Torrent → FileIndex → ℕ → Option ℕ
byte_of_torrent torrent file n = elim (get_elem? torrent.files file.index) [
  | none ↦ none
  | some f ↦ stored_in f n
]

unfoldable pub stored : MemoryStore → InfoHash → FileIndex → ℕ → Option ℕ
stored s t file n = elim (lookup t s.torrents) [
  | none ↦ none
  | some torrent ↦ byte_of_torrent torrent file n
]

pub new-IsStore : IsStore new
unfolding new lookup
new-IsStore = record { torrents = λ t torrent e. cc }

get_elem?-replicate {ℓ} :
    {A : Type ℓ} (n i : ℕ) (a b : A) → get_elem? (replicate n a) i ≡ some b → b ≡ a
get_elem?-replicate zero i a b e = cc
get_elem?-replicate (suc n) zero a b e = cc
get_elem?-replicate (suc n) (suc i) a b e = get_elem?-replicate n i a b e

opened-IsTorrent :
    (layout : TorrentLayout)
    → IsLayout layout
    → IsTorrent (record { layout = layout; files = replicate (file_count layout) empty_file })
opened-IsTorrent layout v = record {
  layout = v;
  count = length-replicate (file_count layout) empty_file;
  files = λ i f e. rw (get_elem?-replicate (file_count layout) i empty_file f e) empty_file-IsFile;
}

insert-IsStore :
    (s : MemoryStore) (t : InfoHash) (torrent : Torrent)
    → IsStore s
    → IsTorrent torrent
    → IsStore (record { torrents = insert t torrent s.torrents })
insert-IsStore s t torrent v w = record {
  torrents = λ u other e. elim (Bool-cases (hash_eq t u)) [
    | inl q ↦
        let same : other ≡ torrent = ground (arith, lookup-insert t u torrent s.torrents, q, e) in
        rw same w
    | inr q ↦ v.torrents u other (ground (arith, lookup-insert t u torrent s.torrents, q, e))
  ];
}

pub open_torrent-IsStore :
    (s : MemoryStore) (t : InfoHash) (layout : TorrentLayout)
    → IsStore s
    → IsLayout layout
    → IsStore (open_torrent s t layout).1
unfolding open_torrent
open_torrent-IsStore s t layout v w = insert-IsStore s t _ v (opened-IsTorrent layout w)

-- The range that the check has accepted lies in a file of the torrent.
pub record IsAccepted (torrent : Torrent) (file : FileIndex) (offset n : ℕ) (r : ByteRange)
    : Type 0 where
  pub range : r ≡ range_of offset n
  pub in_word : offset + n < u64_mod
  pub below : file.index < length torrent.files

pub check_range-IsAccepted :
    (torrent : Torrent) (t : InfoHash) (file : FileIndex) (offset n : ℕ) (r : ByteRange)
    → IsTorrent torrent
    → check_range torrent.layout t file offset n ≡ ok r
    → IsAccepted torrent file offset n r
unfolding file_length file_count
check_range-IsAccepted torrent t file offset n r v e =
    let (m, q, h, k) = (check_range_iff torrent.layout t file offset n r v.layout).0 e in
    record {
      range = k;
      in_word = omega (arith, file_length-in_word torrent.layout file m v.layout q);
      below = omega (arith, v.count, get_elem?-IsBelow torrent.layout.file_lengths file.index m q);
    }

pub get_elem?-below {ℓ} :
    {A : Type ℓ} (xs : List A) (i : ℕ) → i < length xs → (a : A) × (get_elem? xs i ≡ some a)
get_elem?-below [] i h = absurd (omega arith)
get_elem?-below (x ∷ xs) zero h = (x, refl)
get_elem?-below (x ∷ xs) (suc i) h = get_elem?-below xs i (omega arith)

get_elem?-set {ℓ} :
    {A : Type ℓ} (xs : List A) (i j : ℕ) (a : A)
    → i < length xs
    → get_elem? (set xs i a) j ≡ (if i == j then some a else get_elem? xs j)
get_elem?-set xs i j a h = elim (Bool-cases (i == j)) [
  | inl e ↦ ground (arith, get_elem?-set_self xs i a h)
  | inr e ↦ rw e (get_elem?-set_ne xs i j a (λ q. ground arith))
]

pub write_torrent_lem :
    (torrent : Torrent) (file : FileIndex) (r : ByteRange) (offset : ℕ) (bytes : List ℕ) (f : File)
    → get_elem? torrent.files file.index ≡ some f
    → write_torrent torrent file r offset bytes ≡ (
      record torrent { files = set torrent.files file.index (write_file f r offset bytes).0 },
      (write_file f r offset bytes).1,
    )
unfolding write_torrent
write_torrent_lem torrent file r offset bytes f e = ground (arith, e)

set-IsTorrent :
    (torrent : Torrent) (i : ℕ) (f : File)
    → IsTorrent torrent
    → i < length torrent.files
    → IsFile f
    → IsTorrent (record torrent { files = set torrent.files i f })
set-IsTorrent torrent i f v h w = record {
  layout = v.layout;
  count = length-set torrent.files i f ∙ v.count;
  files = λ j g e. elim (Bool-cases (i == j)) [
    | inl q ↦
        let same : g ≡ f = ground (arith, get_elem?-set torrent.files i j f h, q, e) in rw same w
    | inr q ↦ v.files j g (ground (arith, get_elem?-set torrent.files i j f h, q, e))
  ];
}

pub write_torrent-IsTorrent :
    (torrent : Torrent) (file : FileIndex) (offset : ℕ) (bytes : List ℕ) (r : ByteRange)
    → IsTorrent torrent
    → IsAccepted torrent file offset (length bytes) r
    → IsTorrent (write_torrent torrent file r offset bytes).0
write_torrent-IsTorrent torrent file offset bytes r v a =
    let (f, e) = get_elem?-below torrent.files file.index a.below in
    rw (write_torrent_lem torrent file r offset bytes f e, a.range)
      (set-IsTorrent torrent file.index _ v a.below
        (write_file-IsFile f offset bytes (v.files file.index f e) a.in_word))

byte_of_torrent-set :
    (torrent : Torrent) (file other : FileIndex) (f : File) (n : ℕ)
    → file.index < length torrent.files
    → byte_of_torrent (record torrent { files = set torrent.files file.index f }) other n
      ≡ (if file.index == other.index then stored_in f n else byte_of_torrent torrent other n)
unfolding byte_of_torrent
byte_of_torrent-set torrent file other f n h =
    ground (arith, get_elem?-set torrent.files file.index other.index f h)

pub byte_of_torrent_lem :
    (torrent : Torrent) (file other : FileIndex) (f : File) (n : ℕ)
    → get_elem? torrent.files file.index ≡ some f
    → (file.index == other.index) ≡ true
    → byte_of_torrent torrent other n ≡ stored_in f n
unfolding byte_of_torrent
byte_of_torrent_lem torrent file other f n e h = ground (arith, e)

byte_of_torrent-write :
    (torrent : Torrent) (file other : FileIndex) (offset : ℕ) (bytes : List ℕ) (r : ByteRange)
    (n : ℕ)
    → IsTorrent torrent
    → IsAccepted torrent file offset (length bytes) r
    → byte_of_torrent (write_torrent torrent file r offset bytes).0 other n ≡ (
        if (file.index == other.index) && (leb offset n && ltb n (offset + length bytes))
        then some (get_or bytes (n - offset) 0)
        else byte_of_torrent torrent other n)
byte_of_torrent-write torrent file other offset bytes r n v a =
    let (f, e) = get_elem?-below torrent.files file.index a.below in
    rw (write_torrent_lem torrent file r offset bytes f e, a.range)
      (ground (
        arith,
        byte_of_torrent-set torrent file other
            (write_file f (range_of offset (length bytes)) offset bytes).0 n a.below,
        stored_in-write f offset bytes n (v.files file.index f e) a.in_word,
        byte_of_torrent_lem torrent file other f n e,
      ))

-- A successful write, taken apart.
pub record Writes (s : MemoryStore) (t : InfoHash) (file : FileIndex) (offset : ℕ) (bytes : List ℕ)
    (s' : MemoryStore) : Type 0 where
  pub torrent : Torrent
  pub range : ByteRange
  pub found : lookup t s.torrents ≡ some torrent
  pub accepted : check_range torrent.layout t file offset (length bytes) ≡ ok range
  pub after :
      s'
      ≡ record { torrents = insert t (write_torrent torrent file range offset bytes).0 s.torrents }

pub write-Writes :
    (s s' : MemoryStore) (t : InfoHash) (file : FileIndex) (offset added : ℕ) (bytes : List ℕ)
    → write s t file offset bytes ≡ (ok added, s')
    → Writes s t file offset bytes s'
unfolding write
write-Writes s s' t file offset added bytes e = elim (Option-cases (lookup t s.torrents)) [
  | inl q ↦ ground (arith, q)
  | inr (torrent, q) ↦
      elim (Result-cases (check_range torrent.layout t file offset (length bytes))) [
        | inl (r, w) ↦ record {
          torrent = torrent;
          range = r;
          found = q;
          accepted = w;
          after = ground (arith, q, w);
        }
        | inr (x, w) ↦ absurd (ground (arith, q, w))
      ]
]

-- A write that fails leaves the store as it was.
pub write-err :
    (s s' : MemoryStore) (t : InfoHash) (file : FileIndex) (offset : ℕ) (bytes : List ℕ)
    (e : CacheError)
    → write s t file offset bytes ≡ (err e, s')
    → s' ≡ s
unfolding write
write-err s s' t file offset bytes x e = elim (Option-cases (lookup t s.torrents)) [
  | inl q ↦ ground (arith, q)
  | inr (torrent, q) ↦
      elim (Result-cases (check_range torrent.layout t file offset (length bytes))) [
        | inl (r, w) ↦ absurd (ground (arith, q, w))
        | inr (y, w) ↦ ground (arith, q, w)
      ]
]

-- In a valid store, a write that succeeds keeps the store valid and stores its bytes; every other byte
-- of the store, of this and of every other file and torrent, is as it was.
pub stored-write :
    (s s' : MemoryStore) (t u : InfoHash) (file other : FileIndex) (offset added n : ℕ)
    (bytes : List ℕ)
    → IsStore s
    → write s t file offset bytes ≡ (ok added, s')
    → IsStore s'
      × (stored s' u other n ≡ (
          if hash_eq t u
            && ((file.index == other.index) && (leb offset n && ltb n (offset + length bytes)))
          then some (get_or bytes (n - offset) 0)
          else stored s u other n))
unfolding stored
stored-write s s' t u file other offset added n bytes v e =
    let w = write-Writes s s' t file offset added bytes e in
    let x = v.torrents t w.torrent w.found in
    let a = check_range-IsAccepted w.torrent t file offset (length bytes) w.range x w.accepted in
    rw w.after (
      insert-IsStore s t _ v (write_torrent-IsTorrent w.torrent file offset bytes w.range x a),
      ground (
        arith,
        w.found,
        hash_eq_iff t u,
        lookup-insert t u (write_torrent w.torrent file w.range offset bytes).0 s.torrents,
        byte_of_torrent-write w.torrent file other offset bytes w.range n x a,
      ),
    )
