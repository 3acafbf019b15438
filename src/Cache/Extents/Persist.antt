-- ===== src/Cache/Extents/Persist.antt =====
-- `from_spans`, which reads back the spans that a manifest has recorded.
use mathlib.Core.List.{append-nil, append_assoc}
use rustorr.Base.{
  ℕ, ◌+◌, ◌-◌, ◌≤◌, ◌<◌, ◌≡◌, refl, sym, ap, ◌∙◌, subst, List, [], ◌∷◌, ◌++◌, arith, some,
  wrapping_sub_lem, ok,
}
use rustorr.Domain.Range.{ByteRange, new}
use rustorr.Cache.Extents.Spans.{Span, Separated, EndsBelow, measure}
use rustorr.Cache.Extents.Merge.{merge, swallow}
use rustorr.Cache.Extents.Bytes.{largest, measure-merge}
use rustorr.Cache.Extents.Valid.{IsCanonical, insert-merge}
use rustorr.Cache.Extents.{Extents, empty, insert, from_spans, from_spans_loop}

abbrev to_range : Span → ByteRange
to_range p = record { start = p.start; end = p.end }

abbrev of_spans : List Span → Extents
of_spans ps = record { spans = ps; total = measure ps }

-- A later span of a separated list, with its bounds.
later_span :
    (b m : ℕ) (ps : List Span) (q : Span) (qs : List Span)
    → Separated b (ps ++ q ∷ qs)
    → EndsBelow m (ps ++ q ∷ qs)
    → (b ≤ q.start) × (q.start < q.end) × (q.end ≤ m)
later_span b m [] q qs s h = omega arith
later_span b m (p ∷ ps) q qs s h = omega (arith, later_span (p.end + 1) m ps q qs s.2 h.1)

merge-after :
    (b : ℕ) (ps : List Span) (q : Span) (qs : List Span)
    → Separated b (ps ++ q ∷ qs)
    → EndsBelow largest (ps ++ q ∷ qs)
    → merge (to_range q) ps ≡ ps ++ q ∷ []
unfolding merge
merge-after b [] q qs s h = refl
merge-after b (p ∷ ps) q qs s h =
    ground (
      arith,
      later_span (p.end + 1) largest ps q qs s.2 h.1,
      merge-after (p.end + 1) ps q qs s.2 h.1,
    )

measure-append : (ps qs : List Span) → measure (ps ++ qs) ≡ measure ps + measure qs
unfolding measure
measure-append [] qs = omega arith
measure-append (p ∷ ps) qs = omega (arith, measure-append ps qs)

measure_one : (q : Span) → measure (q ∷ []) ≡ q.end - q.start
unfolding measure
measure_one q = omega arith

new_ok : (p : Span) → p.start < p.end → new p.start p.end ≡ ok (to_range p)
unfolding new
new_ok p h = ground arith

Separated-prefix : (b : ℕ) (ps qs : List Span) → Separated b (ps ++ qs) → Separated b ps
Separated-prefix b [] qs s = tt
Separated-prefix b (p ∷ ps) qs s = (s.0, s.1, Separated-prefix (p.end + 1) ps qs s.2)

EndsBelow-prefix : (m : ℕ) (ps qs : List Span) → EndsBelow m (ps ++ qs) → EndsBelow m ps
EndsBelow-prefix m [] qs h = tt
EndsBelow-prefix m (p ∷ ps) qs h = (h.0, EndsBelow-prefix m ps qs h.1)

insert-after :
    (ps : List Span) (q : Span) (qs : List Span)
    → Separated 0 (ps ++ q ∷ qs)
    → EndsBelow largest (ps ++ q ∷ qs)
    → insert (of_spans ps) (to_range q) ≡ (of_spans (ps ++ q ∷ []), q.end - q.start)
insert-after ps q qs s h =
    let at = later_span 0 largest ps q qs s h in
    let sep = Separated-prefix 0 ps (q ∷ qs) s in
    let low = EndsBelow-prefix largest ps (q ∷ qs) h in
    let merged = merge-after 0 ps q qs s h in
    let grown = measure-merge 0 ps (to_range q) sep low at.1 at.2 in
    rw
      (
        insert-merge (of_spans ps) (to_range q)
            (record { separated = sep; in_word = low; total = refl }) at.1 at.2,
        merged,
      )
      (ground (arith, grown, ap measure merged, measure-append ps (q ∷ []), measure_one q))

-- A span that adds all its bytes is accepted.
from_spans_loop-accepts :
    (x x' : Extents) (p : Span) (ps : List Span)
    → p.start < p.end
    → p.end ≤ largest
    → insert x (to_range p) ≡ (x', p.end - p.start)
    → from_spans_loop x (p ∷ ps) ≡ from_spans_loop x' ps
unfolding from_spans_loop
from_spans_loop-accepts x x' p ps h k e =
    ground (arith, new_ok p h, e, wrapping_sub_lem p.end p.start (omega arith) (omega arith))

from_spans_loop-append :
    (ps qs : List Span)
    → Separated 0 (ps ++ qs)
    → EndsBelow largest (ps ++ qs)
    → from_spans_loop (of_spans ps) qs ≡ some (of_spans (ps ++ qs))
unfolding from_spans_loop
from_spans_loop-append ps [] s h = rw (append-nil ps)
from_spans_loop-append ps (q ∷ qs) s h =
    let at = later_span 0 largest ps q qs s h in
    let e = append_assoc ps (q ∷ []) qs in
    let ih =
      from_spans_loop-append (ps ++ q ∷ []) qs (subst (Separated 0) (sym e) s)
        (subst (EndsBelow largest) (sym e) h) in
    from_spans_loop-accepts (of_spans ps) (of_spans (ps ++ q ∷ [])) q qs at.1 at.2
      (insert-after ps q qs s h)
    ∙ ih
    ∙ ap (λ l. some (of_spans l)) e

-- The spans of a canonical set are read back as that set.
pub from_spans-spans : (x : Extents) → IsCanonical x → from_spans x.spans ≡ some x
unfolding from_spans empty measure
from_spans-spans x v =
    from_spans_loop-append [] x.spans v.separated v.in_word
    ∙ ap some (ap (λ t. record { spans = x.spans; total = t }) (sym v.total))

merge_touching :
    (a b c : ℕ)
    → a < b
    → b < c
    → merge (record { start = b; end = c }) (record { start = a; end = b } ∷ [])
      ≡ record { start = a; end = c } ∷ []
unfolding merge swallow
merge_touching a b c h k = ground arith

-- A list of two spans that are not empty and touch, with ends that fit a word, is accepted too, as the
-- one span of both.
pub from_spans_touching :
    (a b c : ℕ)
    → a < b
    → b < c
    → c ≤ largest
    → from_spans (record { start = a; end = b } ∷ record { start = b; end = c } ∷ [])
      ≡ some (record { spans = record { start = a; end = c } ∷ []; total = c - a })
unfolding from_spans from_spans_loop empty measure
from_spans_touching a b c h k l =
    let p : Span = record { start = a; end = b } in
    let q : Span = record { start = b; end = c } in
    let first = insert-after [] p [] (omega arith) (omega arith) in
    let v : IsCanonical (of_spans (p ∷ [])) = record {
      separated = omega arith;
      in_word = omega arith;
      total = refl;
    } in
    let second = insert-merge (of_spans (p ∷ [])) (to_range q) v k l in
    let grown = measure-merge 0 (p ∷ []) (to_range q) v.separated v.in_word k l in
    let joined = merge_touching a b c h k in
    from_spans_loop-accepts empty (of_spans (p ∷ [])) p (q ∷ []) h (omega arith) first
    ∙ from_spans_loop-accepts (of_spans (p ∷ []))
        (record { spans = record { start = a; end = c } ∷ []; total = c - a }) q [] k l
        (ground (arith, second, joined, grown, ap measure joined))
    ∙ refl
