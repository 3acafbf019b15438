-- ===== src/Cache/Disk/Store/Recovery.antt =====
-- A torrent whose manifest was written is found again by a store that starts with nothing.
use rustorr.Base.{
  ℕ, ◌≡◌, refl, sym, ap, ◌∙◌, true, false, none, some, [], ◌∷◌, ◌++◌, if◌then◌else◌, Result, ok,
  arith, Result-cases, inl, inr,
}
use rustorr.Base.Map.{lookup, insert}
use rustorr.Text.{Text, text_eq, text_eq_iff}
use rustorr.Domain.Hash.{InfoHash, info_hash_eq, display}
use rustorr.Cache.Error.{CacheError}
use rustorr.Cache.Store.{Recovered}
use rustorr.Cache.Disk.FileSystem.{
  FilePath, path_eq, FileSystem, IoError, IsFileSystem, Io, ◌>>◌, with_context,
}
use rustorr.Cache.Disk.Manifest.{DiskTorrent, manifest, restore}
use rustorr.Cache.Disk.Manifest.Ascii.{manifest-IsAscii}
use rustorr.Cache.Disk.Manifest.RoundTrip.{IsDiskTorrent, sum_totals, restore-manifest}
use rustorr.Cache.Disk.Store.{
  DiskStore, DiskReply, empty_torrent, new, manifest_path, temporary_path, file_path,
  create_manifest_context, write_manifest_context, sync_context, replace_context, write_manifest,
  restored, register, prepare_dir, open_torrent, completed_pieces,
}

path_eq-append :
    (dir : FilePath) (a b : Text) → path_eq (dir ++ a ∷ []) (dir ++ b ∷ []) ≡ text_eq a b
unfolding path_eq
path_eq-append [] a b = ground arith
path_eq-append (x ∷ dir) a b = ground (arith, path_eq-append dir a b, text_eq_iff x x)

path_eq_self : (p : FilePath) → path_eq p p ≡ true
unfolding path_eq
path_eq_self [] = refl
path_eq_self (x ∷ p) = ground (arith, path_eq_self p, text_eq_iff x x)

-- The first step of a chain that succeeds, and the rest of it.
then_ok :
    {F : Type 0} (n : ℕ) (m : F → Result IoError (Unit {0}) × F) (k : Io F (Unit {0})) (f f' : F)
    → (with_context n m >> k) f ≡ (ok tt, f')
    → (f₁ : F) × (m f ≡ (ok tt, f₁)) × (k f₁ ≡ (ok tt, f'))
then_ok n m k f f' e = elim (Result-cases (m f).0) [
  | inl (u, r) ↦ ((m f).1, ap (λ z. (z, (m f).1)) r, ground (arith, e, r))
  | inr (x, r) ↦ ground (arith, e, r)
]

last_ok :
    {F : Type 0} (n : ℕ) (m : F → Result IoError (Unit {0}) × F) (f f' : F)
    → with_context n m f ≡ (ok tt, f')
    → m f ≡ (ok tt, f')
last_ok n m f f' e = elim (Result-cases (m f).0) [
  | inl (u, r) ↦ ground (arith, e, r)
  | inr (x, r) ↦ ground (arith, e, r)
]

module _ {F : Type 0} (fs : FileSystem F) (h : IsFileSystem fs) where
  -- A manifest that was written is on the file of that name.
  write_manifest-content :
      (t : DiskTorrent) (f f' : F)
      → write_manifest fs t f ≡ (ok tt, f')
      → h.content f' (manifest_path t.dir) ≡ some (manifest t)
  unfolding write_manifest
  write_manifest-content t f f' e =
      let tmp = temporary_path t.dir in
      let replace = with_context replace_context (λ g. fs.rename g tmp (manifest_path t.dir)) in
      let sync = with_context sync_context (λ g. fs.sync_all g tmp) in
      let put = with_context write_manifest_context (λ g. fs.write_all g tmp (manifest t)) in
      let (f₁, made, e₁) =
        then_ok create_manifest_context (λ g. fs.create g tmp) (put >> (sync >> replace)) f f' e in
      let (f₂, wrote, e₂) =
        then_ok write_manifest_context (λ g. fs.write_all g tmp (manifest t)) (sync >> replace) f₁
          f' e₁ in
      let (f₃, synced, e₃) = then_ok sync_context (λ g. fs.sync_all g tmp) replace f₂ f' e₂ in
      let moved = last_ok replace_context (λ g. fs.rename g tmp (manifest_path t.dir)) f₃ f' e₃ in
      let c₁ = h.created f f₁ tmp tmp made ∙ rw (path_eq_self tmp) in
      let c₂ =
        h.written f₁ f₂ tmp tmp [] (manifest t) c₁ (manifest-IsAscii t) wrote
        ∙ rw (path_eq_self tmp) in
      let c₃ = h.synced f₂ f₃ tmp tmp synced ∙ c₂ in
      h.renamed f₃ f' tmp (manifest_path t.dir) (manifest_path t.dir) moved
      ∙ ap
          (λ b.
            if b
            then h.content f₃ tmp
            else if path_eq tmp (manifest_path t.dir)
            then none
            else h.content f₃ (manifest_path t.dir))
          (path_eq_self (manifest_path t.dir))
      ∙ c₃

  restored-write_manifest :
      (root : FilePath) (t : InfoHash) (torrent : DiskTorrent) (f f' : F)
      → write_manifest fs torrent f ≡ (ok tt, f')
      → IsDiskTorrent (λ i. fs.file_len f' (file_path torrent.dir i)) torrent
      → restored fs (new f' root) t torrent.dir torrent.layout
        ≡ some (torrent, sum_totals torrent.extents)
  unfolding restored new lookup
  restored-write_manifest root t torrent f f' e v =
      let text =
        h.reads f' (manifest_path torrent.dir) (manifest torrent)
          (write_manifest-content torrent f f' e) (manifest-IsAscii torrent) in
      ap
        (λ o. elim o [
          | none ↦ none
          | some (extents, completed, stored) ↦ some (
            record {
              layout = torrent.layout;
              dir = torrent.dir;
              extents = extents;
              completed = completed;
            },
            stored,
          )
        ])
        (ap (λ m. restore m (λ i. fs.file_len f' (file_path torrent.dir i)) torrent.layout) text
          ∙ restore-manifest (λ i. fs.file_len f' (file_path torrent.dir i)) torrent v)

  register-prepared :
      (s : DiskStore F) (t : InfoHash) (torrent : DiskTorrent) (stored : ℕ) (f : F)
      (r : Result CacheError (Unit {0}) × F)
      → r ≡ (ok tt, f)
      → register fs s t torrent stored r ≡ (
        ok (record {
          stored_bytes = stored;
          completed_pieces = completed_pieces 0 torrent.completed;
        }),
        record s { files = f; torrents = insert t torrent s.torrents },
      )
  unfolding register
  register-prepared s t torrent stored f r e = ap (register fs s t torrent stored) e

  -- When a torrent's manifest was written and its files are as long as its extents need, a store that
  -- starts with no torrent on the same files opens it, with a directory that can be made, with the
  -- extents, the completed pieces and the bytes stored that it had.
  pub open_torrent-write_manifest :
      (root : FilePath) (t : InfoHash) (torrent : DiskTorrent) (f f' f'' : F)
      → torrent.dir ≡ root ++ display t ∷ []
      → write_manifest fs torrent f ≡ (ok tt, f')
      → IsDiskTorrent (λ i. fs.file_len f' (file_path torrent.dir i)) torrent
      → prepare_dir fs true torrent.dir f' ≡ (ok tt, f'')
      → open_torrent fs (new f' root) t torrent.layout ≡ (
        ok (record {
          stored_bytes = sum_totals torrent.extents;
          completed_pieces = completed_pieces 0 torrent.completed;
        }),
        record { files = f''; root = root; torrents = insert t torrent [] },
      )
  unfolding open_torrent new
  open_torrent-write_manifest root t torrent f f' f'' at e v made =
      let found = restored-write_manifest root t torrent f f' e v in
      let s = new f' root in
      let open_in : FilePath → DiskReply F Recovered = λ dir.
        elim (restored fs s t dir torrent.layout) [
          | some (torrent', stored) ↦ register fs s t torrent' stored (prepare_dir fs true dir f')
          | none ↦
              register fs s t (empty_torrent dir torrent.layout) 0 (prepare_dir fs false dir f')
        ] in
      ap open_in (sym at)
      ∙ ap
          (λ o. elim o [
            | some (torrent', stored) ↦
                register fs s t torrent' stored (prepare_dir fs true torrent.dir f')
            | none ↦
                register fs s t (empty_torrent torrent.dir torrent.layout) 0
                  (prepare_dir fs false torrent.dir f')
          ])
          found
      ∙ register-prepared s t torrent (sum_totals torrent.extents) f''
          (prepare_dir fs true torrent.dir f') made
