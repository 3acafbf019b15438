-- ===== src/Base/Map.antt =====
-- A map as an association list, over keys with an equality test.
use mathlib.Core.Path.{◌≡◌, refl}
use mathlib.Core.Logic.{◌↔◌}
use mathlib.Core.Bool.{Bool, true}
use mathlib.Core.Option.{Option, none, some}
use mathlib.Core.List.{List, [], ◌∷◌}
use native.Mathlib.Omega.{arith}
use rustorr.Base.Lists.{All}
use rustorr.Base.Tests.{if◌then◌else◌}

pub record Eq {ℓ} (K : Type ℓ) : Type ℓ where
  pub beq : K → K → Bool
  pub beq_iff : (a b : K) → (beq a b ≡ true) ↔ (a ≡ b)

abbrev pub Map {ℓ} : Type ℓ → Type ℓ → Type ℓ
Map K V = List (K × V)

module _ {ℓ} {K V : Type ℓ} ⦃e : Eq K⦄ where
  unfoldable pub lookup : K → Map K V → Option V
  lookup k [] = none
  lookup k ((j, v) ∷ m) = if e.beq j k then some v else lookup k m

  -- `insert` replaces the value of a key that is there.
  unfoldable pub insert : K → V → Map K V → Map K V
  insert k v [] = (k, v) ∷ []
  insert k v ((j, w) ∷ m) = if e.beq j k then (k, v) ∷ m else (j, w) ∷ insert k v m

  unfoldable pub remove : K → Map K V → Map K V
  remove k [] = []
  remove k ((j, w) ∷ m) = let rest = remove k m in if e.beq j k then rest else (j, w) ∷ rest

  pub lookup-insert :
      (k j : K) (v : V) (m : Map K V)
      → lookup j (insert k v m) ≡ (if e.beq k j then some v else lookup j m)
  unfolding lookup insert
  lookup-insert k j v [] = refl
  lookup-insert k j v ((i, w) ∷ m) =
      ground (arith, e.beq_iff k j, e.beq_iff i k, e.beq_iff i j, lookup-insert k j v m)

  pub lookup-remove :
      (k j : K) (m : Map K V) → lookup j (remove k m) ≡ (if e.beq k j then none else lookup j m)
  unfolding lookup remove
  lookup-remove k j [] = ground arith
  lookup-remove k j ((i, w) ∷ m) =
      ground (arith, e.beq_iff k j, e.beq_iff i k, e.beq_iff i j, lookup-remove k j m)

-- No key occurs twice.
abbrev pub AreDistinct {ℓ} : {K V : Type ℓ} ⦃e : Eq K⦄ → Map K V → Type ℓ
AreDistinct [] = Unit
AreDistinct ((k, v) ∷ m) = (lookup k m ≡ none) × AreDistinct m

module _ {ℓ} {K V : Type ℓ} ⦃e : Eq K⦄ where
  pub insert-AreDistinct :
      (k : K) (v : V) (m : Map K V) → AreDistinct m → AreDistinct (insert k v m)
  unfolding insert lookup
  insert-AreDistinct k v [] d = (refl, tt)
  insert-AreDistinct k v ((j, w) ∷ m) d =
      ground
        (arith, insert-AreDistinct k v m d.1, lookup-insert k j v m, e.beq_iff j k, e.beq_iff k j)

  pub remove-AreDistinct : (k : K) (m : Map K V) → AreDistinct m → AreDistinct (remove k m)
  unfolding remove
  remove-AreDistinct k [] d = tt
  remove-AreDistinct k ((j, w) ∷ m) d =
      ground (arith, remove-AreDistinct k m d.1, lookup-remove k j m)

  lookup-cons :
      (j k : K) (w v : V) (m : Map K V)
      → lookup j m ≡ none
      → lookup k m ≡ some v
      → lookup k ((j, w) ∷ m) ≡ some v
  unfolding lookup
  lookup-cons j k w v m h q = ground (arith, e.beq_iff j k)

  entries-cons :
      (j : K) (w : V) (m xs : Map K V)
      → lookup j m ≡ none
      → All (λ p. lookup p.0 m ≡ some p.1) xs
      → All (λ p. lookup p.0 ((j, w) ∷ m) ≡ some p.1) xs
  entries-cons j w m [] h a = tt
  entries-cons j w m ((k, v) ∷ xs) h a = (lookup-cons j k w v m h a.0, entries-cons j w m xs h a.1)

  lookup_first : (k : K) (v : V) (m : Map K V) → lookup k ((k, v) ∷ m) ≡ some v
  unfolding lookup
  lookup_first k v m = ground (arith, e.beq_iff k k)

  -- Every entry is the one that its key finds.
  pub entries-lookup : (m : Map K V) → AreDistinct m → All (λ p. lookup p.0 m ≡ some p.1) m
  entries-lookup [] d = tt
  entries-lookup ((j, w) ∷ m) d =
      (lookup_first j w m, entries-cons j w m m d.0 (entries-lookup m d.1))

pub beq_self {ℓ} : {K : Type ℓ} ⦃e : Eq K⦄ (k : K) → e.beq k k ≡ true
beq_self ⦃e⦄ k = (e.beq_iff k k).1 refl
