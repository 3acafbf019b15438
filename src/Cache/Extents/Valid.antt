-- ===== src/Cache/Extents/Valid.antt =====
-- What `Extents` promises: the spans stay canonical, and they behave as a bitmap of bytes.
use rustorr.Base.{
  ℕ, ◌+◌, ◌≤◌, ◌<◌, ◌≡◌, ◌↔◌, refl, ◌∙◌, true, false, List, [], ◌∷◌, arith, ◌==◌, ◌&&◌, ◌||◌, not,
  wrapping_add_lem, Bool-cases, Option-cases, inl, inr, some,
}
use rustorr.Domain.Range.{ByteRange, IsOrdered, is_empty}
use rustorr.Cache.Extents.Spans.{
  Span, Separated, EndsBelow, measure, measure-le, holds, last_at_most, holds-below,
}
use rustorr.Cache.Extents.Merge.{merge, insert_spans-eq-merge, last_at_most_above}
use rustorr.Cache.Extents.Bitmap.{
  within, count, merge-Separated, merge-EndsBelow, holds-merge, measure-eq-count, count-or,
  count-ext,
}
use rustorr.Cache.Extents.Bytes.{largest, measure-merge}
use rustorr.Cache.Extents.{Extents, empty, insert, covers, reaches, added_bytes}

-- Disjoint, non-adjacent, non-empty spans in ascending order, and their number of bytes.
pub record IsCanonical (x : Extents) : Type 0 where
  pub separated : Separated 0 x.spans
  pub in_word : EndsBelow largest x.spans
  pub total : x.total ≡ measure x.spans

pub empty-IsCanonical : IsCanonical empty
unfolding empty measure
empty-IsCanonical = record { separated = tt; in_word = tt; total = refl }

-- `insert` of a range that is not empty.
pub insert-merge :
    (x : Extents) (r : ByteRange)
    → IsCanonical x
    → r.start < r.end
    → r.end ≤ largest
    → insert x r ≡ (
      record { spans = merge r x.spans; total = measure (merge r x.spans) },
      added_bytes x.spans r,
    )
unfolding insert is_empty
insert-merge x r v h k =
    let m = merge r x.spans in
    let grown = measure-merge 0 x.spans r v.separated v.in_word h k in
    let fits =
      measure-le 0 largest m (merge-Separated 0 r x.spans (omega arith) h v.separated)
        (merge-EndsBelow largest r x.spans k v.in_word) (omega arith) in
    let e : (r.start == r.end) ≡ false = ground arith in
    rw (e, insert_spans-eq-merge 0 x.spans r v.separated h)
      (ground (arith, grown, fits, wrapping_add_lem x.total (added_bytes x.spans r), v.total))

insert_empty : (x : Extents) (r : ByteRange) → r.start ≡ r.end → insert x r ≡ (x, 0)
unfolding insert is_empty
insert_empty x r h = ground arith

-- Inserting an ordered range into a canonical set keeps the spans canonical and the total equal to their bytes.
pub insert-IsCanonical :
    (x : Extents) (r : ByteRange) → IsCanonical x → IsOrdered r → IsCanonical (insert x r).0
insert-IsCanonical x r v o = elim (Bool-cases (r.start == r.end)) [
  | inl e ↦ rw (insert_empty x r (ground arith)) v
  | inr e ↦ rw (insert-merge x r v (ground arith) (omega (arith, o.in_word))) (record {
    separated = merge-Separated 0 r x.spans (omega arith) (ground arith) v.separated;
    in_word = merge-EndsBelow largest r x.spans (omega (arith, o.in_word)) v.in_word;
    total = refl;
  })
]

pub holds-insert :
    (x : Extents) (r : ByteRange) (n : ℕ)
    → IsCanonical x
    → IsOrdered r
    → holds (insert x r).0.spans n ≡ (within r n || holds x.spans n)
holds-insert x r n v o = elim (Bool-cases (r.start == r.end)) [
  | inl e ↦ rw (insert_empty x r (ground arith)) (ground arith)
  | inr e ↦
      rw (insert-merge x r v (ground arith) (omega (arith, o.in_word)))
        (holds-merge 0 n r x.spans (ground arith) v.separated)
]

total_insert :
    (x : Extents) (r : ByteRange)
    → IsCanonical x
    → IsOrdered r
    → (insert x r).0.total ≡ x.total + (insert x r).1
total_insert x r v o = elim (Bool-cases (r.start == r.end)) [
  | inl e ↦ rw (insert_empty x r (ground arith)) (omega arith)
  | inr e ↦ rw (insert-merge x r v (ground arith) (omega (arith, o.in_word))) (
      omega (
        arith,
        measure-merge 0 x.spans r v.separated v.in_word (ground arith) (omega (arith, o.in_word)),
        v.total,
      ))
]

insert-EndsBelow :
    (x : Extents) (r : ByteRange) (m : ℕ)
    → IsCanonical x
    → IsOrdered r
    → EndsBelow m x.spans
    → r.end ≤ m
    → EndsBelow m (insert x r).0.spans
insert-EndsBelow x r m v o h k = elim (Bool-cases (r.start == r.end)) [
  | inl e ↦ rw (insert_empty x r (ground arith)) h
  | inr e ↦
      rw (insert-merge x r v (ground arith) (omega (arith, o.in_word)))
        (merge-EndsBelow m r x.spans k h)
]

total-eq-count :
    (x : Extents) (m : ℕ) → IsCanonical x → EndsBelow m x.spans → x.total ≡ count m (holds x.spans)
total-eq-count x m v h = v.total ∙ measure-eq-count 0 m x.spans v.separated h

-- Over a canonical set, an ordered range and a bound `m` on every end, `insert` agrees with a bitmap:
-- afterwards the set holds the bytes of the range and those held before, `insert` reports how many
-- bytes of the range were not held, and the total is the number of bytes held.
pub insert-eq-bitmap :
    (x : Extents) (r : ByteRange) (m : ℕ)
    → IsCanonical x
    → IsOrdered r
    → EndsBelow m x.spans
    → r.end ≤ m
    → ((n : ℕ) → holds (insert x r).0.spans n ≡ (within r n || holds x.spans n))
      × ((insert x r).1 ≡ count m (λ n. within r n && not (holds x.spans n)))
      × ((insert x r).0.total ≡ count m (holds (insert x r).0.spans))
insert-eq-bitmap x r m v o h k =
    let after =
      total-eq-count (insert x r).0 m (insert-IsCanonical x r v o)
        (insert-EndsBelow x r m v o h k) in
    let union = count-ext m _ _ (λ n. holds-insert x r n v o) in
    (
      λ n. holds-insert x r n v o,
      omega (
        arith,
        after,
        union,
        count-or m (within r) (holds x.spans),
        total-eq-count x m v h,
        total_insert x r v o,
      ),
      after,
    )

last_at_most-holds :
    (k : ℕ) (ps : List Span) (p : Span)
    → last_at_most k ps ≡ some p
    → (p.start ≤ k) × ((n : ℕ) → p.start ≤ n → n < p.end → holds ps n ≡ true)
unfolding last_at_most holds
last_at_most-holds k [] p e = ground arith
last_at_most-holds k (q ∷ qs) p e = (
  ground (arith, λ (h : last_at_most k qs ≡ some p). (last_at_most-holds k qs p h).0),
  λ n a b.
      ground (arith, λ (h : last_at_most k qs ≡ some p). (last_at_most-holds k qs p h).1 n a b),
)

reaches_held :
    (b : ℕ) (ps : List Span) (r : ByteRange)
    → Separated b ps
    → r.start < r.end
    → ((n : ℕ) → r.start ≤ n → n < r.end → holds ps n ≡ true)
    → reaches r (last_at_most r.start ps) ≡ true
unfolding reaches last_at_most holds
reaches_held b [] r s h held = ground (arith, held r.start (omega arith) h)
reaches_held b (p ∷ ps) r s h held = ground (
  arith,
  held r.start (omega arith) h,
  held p.end,
  holds-below (p.end + 1) r.start ps s.2,
  holds-below (p.end + 1) p.end ps s.2 (omega arith),
  last_at_most_above r.start (p.end + 1) ps s.2,
  λ (k : p.end ≤ r.start).
      reaches_held (p.end + 1) ps r s.2 h (λ n a c. ground (arith, held n a c)),
)

-- On a canonical set an ordered range is covered exactly when all its bytes are held.
pub covers-iff-holds :
    (x : Extents) (r : ByteRange)
    → IsCanonical x
    → IsOrdered r
    → (covers x r ≡ true) ↔ ((n : ℕ) → within r n ≡ true → holds x.spans n ≡ true)
unfolding covers is_empty reaches
covers-iff-holds x r v o = (
  λ c n w. elim (Option-cases (last_at_most r.start x.spans)) [
    | inl e ↦ ground (arith, e, c)
    | inr (p, e) ↦
        let (low, at) = last_at_most-holds r.start x.spans p e in ground (arith, e, c, low, at n)
  ],
  λ held. ground (
    arith,
    o.ordered,
    λ (h : r.start < r.end).
        reaches_held 0 x.spans r v.separated h (λ n a c. held n (ground arith)),
  ),
)
