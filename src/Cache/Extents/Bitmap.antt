-- ===== src/Cache/Extents/Bitmap.antt =====
-- The set of bytes behind the spans, and what the merge does to it.
use rustorr.Base.{
  ℕ, zero, suc, ◌+◌, ◌-◌, ◌≤◌, ◌<◌, ◌≡◌, refl, sym, Bool, true, false, List, [], ◌∷◌, arith, ltb,
  leb, min, max, ◌&&◌, ◌||◌, not, if◌then◌else◌,
}
use rustorr.Domain.Range.{ByteRange}
use rustorr.Cache.Extents.Spans.{Span, Separated, EndsBelow, measure, holds, holds-below}
use rustorr.Cache.Extents.Merge.{swallow, merge}

-- Whether byte `n` lies in the range.
abbrev pub within : ByteRange → ℕ → Bool
within r n = leb r.start n && ltb n r.end

-- How many of the numbers below `m` satisfy `p`.
pub count : ℕ → (ℕ → Bool) → ℕ
count zero p = 0
count (suc m) p = (if p m then 1 else 0) + count m p

pub count_none : (m : ℕ) (p : ℕ → Bool) → ((n : ℕ) → p n ≡ false) → count m p ≡ 0
unfolding count
count_none zero p h = refl
count_none (suc m) p h = ground (arith, h m, count_none m p h)

-- The end is reached by the range, or by a span that lies before the spans that are left.
swallow-Separated :
    (b s e limit c : ℕ) (ps : List Span)
    → b ≤ s
    → s < e
    → e < max (limit + 1) c
    → Separated c ps
    → Separated b (swallow s e limit ps)
unfolding swallow
swallow-Separated b s e limit c [] h k l t = ground arith
swallow-Separated b s e limit c (p ∷ ps) h k l t = ground (
  arith,
  swallow-Separated b s (max e p.end) limit (p.end + 1) ps h (omega arith) (omega arith) t.2,
)

pub merge-Separated :
    (b : ℕ) (r : ByteRange) (ps : List Span)
    → b ≤ r.start
    → r.start < r.end
    → Separated b ps
    → Separated b (merge r ps)
unfolding merge
merge-Separated b r [] h k s = ground arith
merge-Separated b r (p ∷ ps) h k s = ground (
  arith,
  merge-Separated (p.end + 1) r ps,
  swallow-Separated b (min r.start p.start) (max r.end p.end) r.end (p.end + 1) ps,
)

swallow-EndsBelow :
    (m s e limit : ℕ) (ps : List Span) → e ≤ m → EndsBelow m ps → EndsBelow m (swallow s e limit ps)
unfolding swallow
swallow-EndsBelow m s e limit [] h k = ground arith
swallow-EndsBelow m s e limit (p ∷ ps) h k =
    ground (arith, swallow-EndsBelow m s (max e p.end) limit ps (omega arith) k.1)

pub merge-EndsBelow :
    (m : ℕ) (r : ByteRange) (ps : List Span) → r.end ≤ m → EndsBelow m ps → EndsBelow m (merge r ps)
unfolding merge
merge-EndsBelow m r [] h k = ground arith
merge-EndsBelow m r (p ∷ ps) h k = ground (
  arith,
  merge-EndsBelow m r ps h k.1,
  swallow-EndsBelow m (min r.start p.start) (max r.end p.end) r.end ps (omega arith) k.1,
)

holds-swallow :
    (s e limit c n : ℕ) (ps : List Span)
    → limit ≤ e
    → s < c
    → Separated c ps
    → holds (swallow s e limit ps) n ≡ ((leb s n && ltb n e) || holds ps n)
unfolding swallow holds
holds-swallow s e limit c n [] h k t = ground arith
holds-swallow s e limit c n (p ∷ ps) h k t =
    ground
      (arith, holds-swallow s (max e p.end) limit (p.end + 1) n ps (omega arith) (omega arith) t.2)

-- The merged spans hold the bytes of the range and those that were held.
pub holds-merge :
    (b n : ℕ) (r : ByteRange) (ps : List Span)
    → r.start < r.end
    → Separated b ps
    → holds (merge r ps) n ≡ (within r n || holds ps n)
unfolding merge holds
holds-merge b n r [] h s = ground arith
holds-merge b n r (p ∷ ps) h s = ground (
  arith,
  holds-merge (p.end + 1) n r ps h s.2,
  holds-swallow (min r.start p.start) (max r.end p.end) r.end (p.end + 1) n ps,
)

-- Counting.
pub count-ext : (m : ℕ) (p q : ℕ → Bool) → ((n : ℕ) → p n ≡ q n) → count m p ≡ count m q
unfolding count
count-ext zero p q h = refl
count-ext (suc m) p q h = rw (h m, count-ext m p q h)

pub count-or :
    (m : ℕ) (p q : ℕ → Bool)
    → count m (λ n. p n || q n) ≡ count m q + count m (λ n. p n && not (q n))
unfolding count
count-or zero p q = omega arith
count-or (suc m) p q = ground (arith, count-or m p q)

count-none : (m : ℕ) (p : ℕ → Bool) → ((n : ℕ) → n < m → p n ≡ false) → count m p ≡ 0
unfolding count
count-none zero p h = refl
count-none (suc m) p h =
    rw (h m (omega arith)) (omega (arith, count-none m p (λ n k. h n (omega arith))))

count-interval : (m s e : ℕ) → s ≤ e → count m (λ n. leb s n && ltb n e) ≡ min m e - min m s
unfolding count
count-interval zero s e h = omega arith
count-interval (suc m) s e h = ground (arith, count-interval m s e h)

count-disjoint :
    (m : ℕ) (p q : ℕ → Bool)
    → ((n : ℕ) → p n ≡ true → q n ≡ false)
    → count m (λ n. p n || q n) ≡ count m p + count m q
unfolding count
count-disjoint zero p q h = omega arith
count-disjoint (suc m) p q h = ground (arith, count-disjoint m p q h, h m)

-- The spans measure as many bytes as they hold.
pub measure-eq-count :
    (b m : ℕ) (ps : List Span) → Separated b ps → EndsBelow m ps → measure ps ≡ count m (holds ps)
unfolding measure holds
measure-eq-count b m [] s h = sym (count-none m (holds []) (λ n k. refl))
measure-eq-count b m (p ∷ ps) s h = omega (
  arith,
  measure-eq-count (p.end + 1) m ps s.2 h.1,
  count-interval m p.start p.end,
  count-disjoint m (λ n. leb p.start n && ltb n p.end) (holds ps)
      (λ n e. holds-below (p.end + 1) n ps s.2 (ground arith)),
)
