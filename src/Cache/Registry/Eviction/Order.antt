-- ===== src/Cache/Registry/Eviction/Order.antt =====
-- The sort by recency, and the entries that it is given.
use rustorr.Base.{
  ℕ, ◌≤◌, ◌<◌, ◌≡◌, ◌∙◌, refl, ap, subst, true, false, none, some, List, [], ◌∷◌, ltb, leb, ◌==◌,
  ◌&&◌, arith, All, Has, Bool-cases, inl, inr,
}
use rustorr.Base.Map.{Map, lookup, AreDistinct, entries-lookup}
use rustorr.Domain.Hash.{InfoHash, hash_eq, hash_eq_iff, info_hash_eq}
use rustorr.Cache.Registry.{Entry}
use rustorr.Cache.Registry.Eviction.{Item, idle, place, sort_by_last_read}

-- Least recently read first.
abbrev pub IsByRecency : List Item → Type 0
IsByRecency [] = Unit {0}
IsByRecency (x ∷ xs) = All (λ y. x.1.last_read ≤ y.1.last_read) xs × IsByRecency xs

place-All : (P : Item → Type 0) (x : Item) (xs : List Item) → P x → All P xs → All P (place x xs)
unfolding place
place-All P x [] h k = (h, tt)
place-All P x (y ∷ ys) h k = elim (Bool-cases (leb x.1.last_read y.1.last_read)) [
  | inl e ↦ rw e (h, k)
  | inr e ↦ rw e (k.0, place-All P x ys h k.1)
]

All-le_trans :
    (a b : ℕ) (xs : List Item)
    → a ≤ b
    → All (λ y. b ≤ y.1.last_read) xs
    → All (λ y. a ≤ y.1.last_read) xs
All-le_trans a b [] h k = tt
All-le_trans a b (x ∷ xs) h k = (omega arith, All-le_trans a b xs h k.1)

place-IsByRecency : (x : Item) (xs : List Item) → IsByRecency xs → IsByRecency (place x xs)
unfolding place
place-IsByRecency x [] h = (tt, tt)
place-IsByRecency x (y ∷ ys) h = elim (Bool-cases (leb x.1.last_read y.1.last_read)) [
  | inl e ↦ rw e ((ground arith, All-le_trans x.1.last_read y.1.last_read ys (ground arith) h.0), h)
  | inr e ↦ rw e (
    place-All (λ z. y.1.last_read ≤ z.1.last_read) x ys (ground arith) h.0,
    place-IsByRecency x ys h.1,
  )
]

place-Has_first : (x : Item) (xs : List Item) → Has x (place x xs)
unfolding place
place-Has_first x [] = inl refl
place-Has_first x (y ∷ ys) = elim (Bool-cases (leb x.1.last_read y.1.last_read)) [
  | inl e ↦ rw e (inl refl)
  | inr e ↦ rw e (inr (place-Has_first x ys))
]

place-Has : (x z : Item) (xs : List Item) → Has z xs → Has z (place x xs)
unfolding place
place-Has x z [] h = absurd h
place-Has x z (y ∷ ys) h = elim (Bool-cases (leb x.1.last_read y.1.last_read)) [
  | inl e ↦ rw e (inr h)
  | inr e ↦ rw e (elim h [ inl q ↦ inl q | inr q ↦ inr (place-Has x z ys q) ])
]

lookup-cons :
    (t : InfoHash) (x : Item) (xs : List Item)
    → lookup t (x ∷ xs) ≡ none
    → (hash_eq x.0 t ≡ false) × (lookup t xs ≡ none)
unfolding lookup
lookup-cons t x xs h = ground arith

lookup-place :
    (t : InfoHash) (x : Item) (xs : List Item)
    → hash_eq x.0 t ≡ false
    → lookup t xs ≡ none
    → lookup t (place x xs) ≡ none
unfolding place lookup
lookup-place t x [] e h = ground arith
lookup-place t x (y ∷ ys) e h = ground (arith, lookup-place t x ys)

place-AreDistinct :
    (x : Item) (xs : List Item) → lookup x.0 xs ≡ none → AreDistinct xs → AreDistinct (place x xs)
unfolding place
place-AreDistinct x [] h d = (h, tt)
place-AreDistinct x (y ∷ ys) h d = elim (Bool-cases (leb x.1.last_read y.1.last_read)) [
  | inl e ↦ rw e (h, d)
  | inr e ↦
      let (other, later) = lookup-cons x.0 y ys h in
      rw e (
        lookup-place y.0 x ys (ground (arith, other, hash_eq_iff x.0 y.0, hash_eq_iff y.0 x.0)) d.0,
        place-AreDistinct x ys later d.1,
      )
]

pub sort-IsByRecency : (xs : List Item) → IsByRecency (sort_by_last_read xs)
unfolding sort_by_last_read
sort-IsByRecency [] = tt
sort-IsByRecency (x ∷ xs) = place-IsByRecency x (sort_by_last_read xs) (sort-IsByRecency xs)

pub sort-Has : (x : Item) (xs : List Item) → Has x xs → Has x (sort_by_last_read xs)
unfolding sort_by_last_read
sort-Has x [] h = absurd h
sort-Has x (y ∷ ys) (inl q) =
    subst (λ z. Has z (place y (sort_by_last_read ys))) q (place-Has_first y (sort_by_last_read ys))
sort-Has x (y ∷ ys) (inr q) = place-Has y x (sort_by_last_read ys) (sort-Has x ys q)

lookup-sort :
    (t : InfoHash) (xs : List Item) → lookup t xs ≡ none → lookup t (sort_by_last_read xs) ≡ none
unfolding sort_by_last_read
lookup-sort t [] h = h
lookup-sort t (x ∷ xs) h =
    let (other, later) = lookup-cons t x xs h in
    lookup-place t x (sort_by_last_read xs) other (lookup-sort t xs later)

pub sort-AreDistinct : (xs : List Item) → AreDistinct xs → AreDistinct (sort_by_last_read xs)
unfolding sort_by_last_read
sort-AreDistinct [] d = tt
sort-AreDistinct (x ∷ xs) d =
    place-AreDistinct x (sort_by_last_read xs) (lookup-sort x.0 xs d.0) (sort-AreDistinct xs d.1)

pub sort-All : (P : Item → Type 0) (xs : List Item) → All P xs → All P (sort_by_last_read xs)
unfolding sort_by_last_read
sort-All P [] h = tt
sort-All P (x ∷ xs) h = place-All P x (sort_by_last_read xs) h.0 (sort-All P xs h.1)

-- An item that may be evicted: it is registered, nobody watches it, and it holds bytes.
abbrev pub IsIdle : Map InfoHash Entry → Item → Type 0
IsIdle m x = (lookup x.0 m ≡ some x.1) × (x.1.pins ≡ 0) × (0 < x.1.stored)

idle_sub :
    (m xs : Map InfoHash Entry) → All (λ p. lookup p.0 m ≡ some p.1) xs → All (IsIdle m) (idle xs)
unfolding idle
idle_sub m [] h = tt
idle_sub m ((t, e) ∷ xs) h = elim (Bool-cases (e.pins == 0 && ltb 0 e.stored)) [
  | inl q ↦ rw q ((h.0, ground arith, ground arith), idle_sub m xs h.1)
  | inr q ↦ rw q (idle_sub m xs h.1)
]

pub idle-IsIdle : (m : Map InfoHash Entry) → AreDistinct m → All (IsIdle m) (idle m)
idle-IsIdle m d = idle_sub m m (entries-lookup m d)

lookup-idle : (t : InfoHash) (m : Map InfoHash Entry) → lookup t m ≡ none → lookup t (idle m) ≡ none
unfolding idle lookup
lookup-idle t [] h = h
lookup-idle t (x ∷ xs) h = ground (arith, lookup-idle t xs)

pub idle-AreDistinct : (m : Map InfoHash Entry) → AreDistinct m → AreDistinct (idle m)
unfolding idle
idle-AreDistinct [] d = tt
idle-AreDistinct ((t, e) ∷ m) d = elim (Bool-cases (e.pins == 0 && ltb 0 e.stored)) [
  | inl q ↦ rw q (lookup-idle t m d.0, idle-AreDistinct m d.1)
  | inr q ↦ rw q (idle-AreDistinct m d.1)
]

-- Every item that may be evicted is listed.
pub idle-Has : (m : Map InfoHash Entry) (x : Item) → IsIdle m x → Has x (idle m)
unfolding idle lookup
idle-Has [] x h = cc
idle-Has ((t, e) ∷ m) (u, f) h = elim (Bool-cases (hash_eq t u)) [
  | inl same ↦
      let t_eq : t ≡ u = (hash_eq_iff t u).0 same in
      let e_eq : e ≡ f = ground (arith, h.0, same) in
      let kept : (e.pins == 0 && ltb 0 e.stored) ≡ true = ground (arith, h, e_eq) in
      rw kept (inl (ap (λ v. (v, e)) t_eq ∙ ap (λ g. (u, g)) e_eq))
  | inr other ↦
      let rest = idle-Has m (u, f) (ground (arith, h.0, other), h.1, h.2) in
      elim (Bool-cases (e.pins == 0 && ltb 0 e.stored)) [
        | inl q ↦ rw q (inr rest)
        | inr q ↦ rw q rest
      ]
]
