-- ===== src/Cache/Extents/Spans.antt =====
-- The sorted map of spans, and the predicates on it.
use rustorr.Base.{
  ℕ, ◌+◌, ◌-◌, ◌≤◌, ◌<◌, ◌≡◌, Bool, false, Option, none, some, List, [], ◌∷◌, arith, ltb, leb, ◌==◌,
  ◌&&◌, ◌||◌, if◌then◌else◌,
}

-- An entry of the map, half-open.
pub record Span : Type 0 where
  pub start : ℕ
  pub end : ℕ

-- `range(..=k).next_back()`
unfoldable pub last_at_most : ℕ → List Span → Option Span
last_at_most k [] = none
last_at_most k (p ∷ ps) =
    if leb p.start k then elim (last_at_most k ps) [ none ↦ some p | some q ↦ some q ] else none

-- `range((Excluded(lo), Included(hi)))`
unfoldable pub between : ℕ → ℕ → List Span → List Span
between lo hi [] = []
between lo hi (p ∷ ps) =
    let rest = between lo hi ps in if ltb lo p.start && leb p.start hi then p ∷ rest else rest

unfoldable pub remove : ℕ → List Span → List Span
remove k [] = []
remove k (p ∷ ps) = let rest = remove k ps in if p.start == k then ps else p ∷ rest

-- `insert(start, end)`
unfoldable pub insert_entry : ℕ → ℕ → List Span → List Span
insert_entry s e [] = record { start = s; end = e } ∷ []
insert_entry s e (p ∷ ps) =
    if ltb s p.start
    then record { start = s; end = e } ∷ p ∷ ps
    else if s == p.start
    then record { start = s; end = e } ∷ ps
    else p ∷ insert_entry s e ps

-- Ascending, not empty, neither overlapping nor adjacent, from `b` on.
abbrev pub Separated : ℕ → List Span → Type 0
Separated b [] = Unit {0}
Separated b (p ∷ ps) = (b ≤ p.start) × (p.start < p.end) × Separated (p.end + 1) ps

-- Every end is at most `m`.
abbrev pub EndsBelow : ℕ → List Span → Type 0
EndsBelow m [] = Unit {0}
EndsBelow m (p ∷ ps) = (p.end ≤ m) × EndsBelow m ps

-- The number of bytes in the spans.
unfoldable pub measure : List Span → ℕ
measure [] = 0
measure (p ∷ ps) = (p.end - p.start) + measure ps

-- Whether byte `n` is in a span.
unfoldable pub holds : List Span → ℕ → Bool
holds [] n = false
holds (p ∷ ps) n = (leb p.start n && ltb n p.end) || holds ps n

pub Separated-mono : (a b : ℕ) (ps : List Span) → a ≤ b → Separated b ps → Separated a ps
Separated-mono a b [] h s = tt
Separated-mono a b (p ∷ ps) h s = (omega arith, s.1, s.2)

-- No byte before the first span is held.
pub holds-below : (b n : ℕ) (ps : List Span) → Separated b ps → n < b → holds ps n ≡ false
unfolding holds
holds-below b n [] s h = ground arith
holds-below b n (p ∷ ps) s h = ground (arith, holds-below (p.end + 1) n ps s.2)

-- The spans fit between the bound and the largest end.
pub measure-le :
    (b m : ℕ) (ps : List Span) → Separated b ps → EndsBelow m ps → b ≤ m → b + measure ps ≤ m
unfolding measure
measure-le b m [] s h k = omega arith
measure-le b m (p ∷ []) s h k = omega arith
measure-le b m (p ∷ q ∷ ps) s h k = omega (arith, measure-le (p.end + 1) m (q ∷ ps) s.2 h.1)
