-- ===== src/Cache/Registry/Threads/Accounts.antt =====
-- In every interleaving the cache counts the bytes that its store holds: the invariant at one
-- torrent, and what the other files use to keep it.
use rustorr.Base.{
  ℕ, zero, suc, ◌<◌, ◌≡◌, refl, subst, Bool, true, false, Option, none, some, List, [], ◌∷◌, ok,
  err, arith, get_elem?, u64_mod, wrapping_add, ltb, ◌⊎◌, Bool-cases, Option-cases, Result-cases,
  inl, inr,
}
use rustorr.Base.Map.{lookup, remove}
use rustorr.Domain.Hash.{InfoHash, hash_eq, hash_eq_iff, info_hash_eq}
use rustorr.Domain.Index.{PieceIndex}
use rustorr.Cache.Error.{CacheError}
use rustorr.Cache.Layout.{TorrentLayout}
use rustorr.Cache.Store.{PieceStore, Recovered}
use rustorr.Cache.Registry.{Cache, Entry}
use rustorr.Cache.Registry.Methods.{
  is_registered, account, mark_piece, register, open_torrent, remove_torrent,
}
use rustorr.Cache.Registry.Pins.{without_index}
use rustorr.Cache.Registry.Threads.{
  Phase, found, written, completed, gathered, Threads, is_write, is_writing, IsCounting, uncounted,
  left_of, stored_of,
}

-- A torrent that is not registered has no write running; of one that is, the bytes counted and those
-- to be counted are the bytes that the store holds.
abbrev pub AgreesAt : Option ℕ → Bool → ℕ → ℕ → Type 0
AgreesAt none writing pending held = writing ≡ false
AgreesAt (some m) writing pending held = (m < u64_mod) × (wrapping_add m pending ≡ held)

pub uncounted-without :
    (u : InfoHash) (ps : List Phase) (i : ℕ) (p : Phase)
    → get_elem? ps i ≡ some p
    → uncounted u ps ≡ wrapping_add (left_of u p) (uncounted u (without_index i ps))
unfolding uncounted without_index wrapping_add
uncounted-without u [] i p e = cc
uncounted-without u (q ∷ ps) zero p e = ground arith
uncounted-without u (q ∷ ps) (suc i) p e = omega (arith, uncounted-without u ps i p e)

pub is_writing-without :
    (u : InfoHash) (ps : List Phase) (i : ℕ)
    → is_writing u ps ≡ false
    → is_writing u (without_index i ps) ≡ false
unfolding is_writing without_index
is_writing-without u [] i h = refl
is_writing-without u (p ∷ ps) zero h = ground arith
is_writing-without u (p ∷ ps) (suc i) h = ground (arith, is_writing-without u ps i)

pub is_writing-get_elem? :
    (t : InfoHash) (ps : List Phase) (i : ℕ) (p : Phase)
    → get_elem? ps i ≡ some p
    → is_write t p ≡ true
    → is_writing t ps ≡ true
unfolding is_writing
is_writing-get_elem? t [] i p e h = cc
is_writing-get_elem? t (q ∷ ps) zero p e h = ground arith
is_writing-get_elem? t (q ∷ ps) (suc i) p e h = ground (arith, is_writing-get_elem? t ps i p e h)

pub AgreesAt-is_registered :
    {S : Type 0} (c : Cache S) (t : InfoHash) (pending held : ℕ)
    → AgreesAt (stored_of c t) true pending held
    → is_registered c t ≡ true
unfolding stored_of is_registered
AgreesAt-is_registered c t pending held a = elim (Option-cases (lookup t c.torrents)) [
  | inl q ↦ ground (arith, a, q)
  | inr (e, q) ↦ ground (arith, q)
]

pub is_registered-stored_of :
    {S : Type 0} (c : Cache S) (t : InfoHash)
    → is_registered c t ≡ true
    → (m : ℕ) × (stored_of c t ≡ some m)
unfolding stored_of is_registered
is_registered-stored_of c t h = elim (Option-cases (lookup t c.torrents)) [
  | inl q ↦ ground (arith, h, q)
  | inr (e, q) ↦ (e.stored, ground (arith, q))
]

pub idle_uncounted : (t : InfoHash) (ps : List Phase) → is_writing t ps ≡ false → uncounted t ps ≡ 0
unfolding is_writing uncounted wrapping_add
idle_uncounted t [] h = refl
idle_uncounted t (found u file offset bytes ∷ ps) h = ground (arith, idle_uncounted t ps)
idle_uncounted t (written u n ∷ ps) h = ground (arith, idle_uncounted t ps)
idle_uncounted t (completed u piece ∷ ps) h = ground (arith, idle_uncounted t ps)
idle_uncounted t (gathered keep ∷ ps) h = ground (arith, idle_uncounted t ps)

pub at_or_other : (P : InfoHash → Type 0) (t u : InfoHash) → P t → (hash_eq t u ≡ false → P u) → P u
at_or_other P t u here_t elsewhere = elim (Bool-cases (hash_eq t u)) [
  | inl same ↦ subst P ((hash_eq_iff t u).0 same) here_t
  | inr other ↦ elsewhere other
]

pub next_AgreesAt :
    (o : Option ℕ) (w w' : Bool) (p p' h h' : ℕ)
    → (w ≡ false → w' ≡ false)
    → ((m : ℕ) → m < u64_mod → wrapping_add m p ≡ h → wrapping_add m p' ≡ h')
    → AgreesAt o w p h
    → AgreesAt o w' p' h'
next_AgreesAt none w w' p p' h h' f g a = f a
next_AgreesAt (some m) w w' p p' h h' f g a = (a.0, g m a.0 a.1)

-- For a torrent that the cache knows, the writes that run do not matter.
pub counted_AgreesAt :
    (o : Option ℕ) (m : ℕ) (w w' : Bool) (p p' h : ℕ)
    → o ≡ some m
    → wrapping_add 0 p ≡ wrapping_add 0 p'
    → AgreesAt o w p h
    → AgreesAt o w' p' h
unfolding wrapping_add
counted_AgreesAt none m w w' p p' h q e a = cc
counted_AgreesAt (some n) m w w' p p' h q e a = (a.0, omega (arith, a.1, e))

abbrev pub add_stored : ℕ → Option ℕ → Option ℕ
add_stored n none = none
add_stored n (some m) = some (wrapping_add m n)

pub accounted_AgreesAt :
    (o : Option ℕ) (w w' : Bool) (p p' h n : ℕ)
    → (w ≡ false → w' ≡ false)
    → p ≡ wrapping_add n p'
    → AgreesAt o w p h
    → AgreesAt (add_stored n o) w' p' h
unfolding wrapping_add
accounted_AgreesAt none w w' p p' h n f e a = f a
accounted_AgreesAt (some m) w w' p p' h n f e a = (omega arith, omega (arith, a.1, e))

module _ {S : Type 0} where
  pub absent_stored_of :
      (c : Cache S) (t : InfoHash) → lookup t c.torrents ≡ none → stored_of c t ≡ none
  unfolding stored_of
  absent_stored_of c t q = ground (arith, q)

  pub absent_idle :
      (c : Cache S) (running : List Phase) (t : InfoHash) (held : ℕ)
      → lookup t c.torrents ≡ none
      → AgreesAt (stored_of c t) (is_writing t running) (uncounted t running) held
      → is_writing t running ≡ false
  absent_idle c running t held q a = rw (absent_stored_of c t q) at a

  pub store-register :
      (c : Cache S) (t : InfoHash) (layout : TorrentLayout) (r : Recovered)
      → (register c t layout r).1.store ≡ c.store
  unfolding register
  store-register c t layout r = ground arith

  pub store-account : (c : Cache S) (t : InfoHash) (n : ℕ) → (account c t n).store ≡ c.store
  unfolding account
  store-account c t n = ground arith

  pub store-mark_piece :
      (c : Cache S) (t : InfoHash) (piece : PieceIndex) → (mark_piece c t piece).1.store ≡ c.store
  unfolding mark_piece
  store-mark_piece c t piece = ground arith

  module _ (ps : PieceStore S) (c : Cache S) (t : InfoHash) (layout : TorrentLayout) where
    pub open_again : (e : Entry) → lookup t c.torrents ≡ some e → (open_torrent ps c t layout).1 ≡ c
    unfolding open_torrent
    open_again e q = ground (arith, q)

    pub open_registers :
        (r : Recovered)
        → lookup t c.torrents ≡ none
        → (ps.open_torrent c.store t layout).0 ≡ ok r
        → (open_torrent ps c t layout).1
          ≡ (register (record c { store = (ps.open_torrent c.store t layout).1 }) t layout r).1
    unfolding open_torrent
    open_registers r q e = rw (open_torrent, q, e)

    pub open_failed :
        (x : CacheError)
        → lookup t c.torrents ≡ none
        → (ps.open_torrent c.store t layout).0 ≡ err x
        → (open_torrent ps c t layout).1 ≡ record c { store = (ps.open_torrent c.store t layout).1 }
    unfolding open_torrent
    open_failed x q e = rw (open_torrent, q, e)

module _ {S : Type 0} (ps : PieceStore S) (c : Cache S) (t : InfoHash) where
  pub remove_kept :
      ((remove_torrent ps c t).1 ≡ c)
      ⊎ (((x : CacheError) × ((ps.remove_torrent c.store t).0 ≡ err x)
            × ((remove_torrent ps c t).1 ≡ record c { store = (ps.remove_torrent c.store t).1 }))
          ⊎ ((remove_torrent ps c t).1 ≡ record c {
            store = (ps.remove_torrent c.store t).1;
            torrents = remove t c.torrents;
          }))
  unfolding remove_torrent
  remove_kept = elim (Option-cases (lookup t c.torrents)) [
    | inl q ↦ inl (ground (arith, q))
    | inr (e, q) ↦ elim (Bool-cases (ltb 0 e.pins)) [
      | inl held ↦ inl (ground (arith, q, held))
      | inr free ↦ elim (Result-cases (ps.remove_torrent c.store t).0) [
        | inl (u, r) ↦ inr (inr (rw (remove_torrent, q, free, r)))
        | inr (x, r) ↦ inr (inl (x, r, rw (remove_torrent, q, free, r)))
      ]
    ]
  ]

module _ {S : Type 0} {ps : PieceStore S} {size : S → InfoHash → ℕ} (k : IsCounting ps size) where
  -- The invariant at one torrent, for a cache and the calls that run.
  abbrev pub AgreesIn : Cache S → List Phase → InfoHash → Type 0
  AgreesIn c running t =
      AgreesAt (stored_of c t) (is_writing t running) (uncounted t running) (size c.store t)

  pub record IsAccounted (w : Threads S) : Type 0 where
    pub at : (t : InfoHash) → AgreesIn w.world.cache w.running t

  pub moved_AgreesIn :
      (c c' : Cache S) (running : List Phase) (t : InfoHash)
      → stored_of c' t ≡ stored_of c t
      → size c'.store t ≡ size c.store t
      → AgreesIn c running t
      → AgreesIn c' running t
  moved_AgreesIn c c' running t e f a = rw (e, f) a

  -- A torrent that has just been opened, and that nothing writes to.
  pub fresh_AgreesIn :
      (c : Cache S) (running : List Phase) (t : InfoHash) (m : ℕ)
      → is_writing t running ≡ false
      → stored_of c t ≡ some m
      → size c.store t ≡ m
      → AgreesIn c running t
  unfolding wrapping_add
  fresh_AgreesIn c running t m h e f =
      let small = k.in_word c.store t in
      rw e (omega (arith, small, f), omega (arith, small, f, idle_uncounted t running h))

  pub absent_AgreesIn :
      (c : Cache S) (running : List Phase) (t : InfoHash)
      → is_writing t running ≡ false
      → stored_of c t ≡ none
      → AgreesIn c running t
  absent_AgreesIn c running t h e = rw e h
