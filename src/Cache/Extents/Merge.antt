-- ===== src/Cache/Extents/Merge.antt =====
-- `insert` on the sorted map computes a merge of the range into the list of spans.
use mathlib.Core.List.{append-nil, append_assoc}
use rustorr.Base.{
  ℕ, ◌+◌, ◌≤◌, ◌<◌, ◌≡◌, refl, sym, ap, ◌∙◌, Option, none, some, List, [], ◌∷◌, ◌++◌, map, arith,
  ltb, leb, min, max, if◌then◌else◌, wrapping_add, wrapping_sub, All, inl, inr, Bool-cases,
}
use rustorr.Domain.Range.{ByteRange}
use rustorr.Cache.Extents.Spans.{Span, last_at_most, between, remove, insert_entry, Separated}
use rustorr.Cache.Extents.{
  Absorbed, absorb, absorb_predecessor, absorb_following, remove_all, absorbed, insert_spans,
}

abbrev span : ℕ → ℕ → Span
span s e = record { start = s; end = e }

abbrev starts_of : List Span → List ℕ
starts_of = map (λ p. p.start)

-- The spans that begin up to `limit` join the span from `s` to `e`.
unfoldable pub swallow : ℕ → ℕ → ℕ → List Span → List Span
swallow s e limit [] = span s e ∷ []
swallow s e limit (p ∷ ps) =
    if leb p.start limit then swallow s (max e p.end) limit ps else span s e ∷ p ∷ ps

unfoldable pub merge : ByteRange → List Span → List Span
unfolding swallow
merge r [] = span r.start r.end ∷ []
merge r (p ∷ ps) =
    if ltb p.end r.start
    then p ∷ merge r ps
    else if ltb r.end p.start
    then span r.start r.end ∷ p ∷ ps
    else swallow (min r.start p.start) (max r.end p.end) r.end ps

pub between_above : (lo hi b : ℕ) (ps : List Span) → Separated b ps → hi < b → between lo hi ps ≡ []
unfolding between
between_above lo hi b [] s h = refl
between_above lo hi b (p ∷ ps) s h = ground (arith, between_above lo hi (p.end + 1) ps s.2)

pub last_at_most_above :
    (k b : ℕ) (ps : List Span) → Separated b ps → k < b → last_at_most k ps ≡ none
unfolding last_at_most
last_at_most_above k b [] s h = refl
last_at_most_above k b (p ∷ ps) s h = ground arith

starts-absorb_following :
    (a : Absorbed) (qs : List Span) → (absorb_following a qs).starts ≡ a.starts ++ starts_of qs
unfolding absorb_following
starts-absorb_following a [] = sym (append-nil a.starts)
starts-absorb_following a (q ∷ qs) =
    starts-absorb_following (absorb a q) qs ∙ append_assoc a.starts (q.start ∷ []) (starts_of qs)

pub start-absorb_following :
    (a : Absorbed) (qs : List Span) → (absorb_following a qs).start ≡ a.start
unfolding absorb_following
start-absorb_following a [] = refl
start-absorb_following a (q ∷ qs) = start-absorb_following (absorb a q) qs

remove_all-append :
    (ss ts : List ℕ) (ps : List Span) → remove_all (ss ++ ts) ps ≡ remove_all ts (remove_all ss ps)
unfolding remove_all
remove_all-append [] ts ps = refl
remove_all-append (s ∷ ss) ts ps = remove_all-append ss ts (remove s ps)

remove_all-cons :
    (ss : List ℕ) (p : Span) (ps : List Span)
    → All (λ s. p.start < s) ss
    → remove_all ss (p ∷ ps) ≡ p ∷ remove_all ss ps
unfolding remove_all remove
remove_all-cons [] p ps h = refl
remove_all-cons (s ∷ ss) p ps h = ground (arith, remove_all-cons ss p (remove s ps) h.1)

pub between_nil : (lo hi : ℕ) → between lo hi [] ≡ []
unfolding between
between_nil lo hi = refl

pub between_in :
    (lo hi : ℕ) (p : Span) (ps : List Span)
    → lo < p.start
    → p.start ≤ hi
    → between lo hi (p ∷ ps) ≡ p ∷ between lo hi ps
unfolding between
between_in lo hi p ps h k = ground arith

-- The second loop, with the removals and the insertion that follow it, swallows the spans.
insert_entry-swallow :
    (lo limit b : ℕ) (a : Absorbed) (ps : List Span)
    → Separated b ps
    → lo < b
    → a.start < b
    → insert_entry a.start
        (absorb_following a (between lo limit ps)).end
        (remove_all (starts_of (between lo limit ps)) ps)
      ≡ swallow a.start a.end limit ps
unfolding absorb_following absorb remove_all remove swallow insert_entry
insert_entry-swallow lo limit b a [] s h k = rw (between_nil lo limit)
insert_entry-swallow lo limit b a (p ∷ ps) s h k = elim (Bool-cases (leb p.start limit)) [
  | inl e ↦
      rw (between_in lo limit p ps (omega arith) (ground arith), e)
        (ground (
          arith,
          insert_entry-swallow lo limit (p.end + 1) (absorb a p) ps s.2 (omega arith) (omega arith),
        ))
  | inr e ↦
      rw (between_above lo limit p.start (p ∷ ps) (omega arith, s.1, s.2) (ground arith), e)
        (ground arith)
]

-- A span that ends before the range changes nothing that the loops collect.
pub absorbed-skip :
    (p : Span) (ps : List Span) (r : ByteRange)
    → p.start < p.end
    → p.end < r.start
    → absorbed (p ∷ ps) r ≡ absorbed ps r
unfolding absorbed absorb_predecessor last_at_most between
absorbed-skip p ps r h k = ground arith

starts_of-between-above :
    (x lo hi b : ℕ) (ps : List Span)
    → Separated b ps
    → x < b
    → All (λ s. x < s) (starts_of (between lo hi ps))
unfolding between
starts_of-between-above x lo hi b [] s h = tt
starts_of-between-above x lo hi b (p ∷ ps) s h =
    ground (arith, starts_of-between-above x lo hi (p.end + 1) ps s.2)

last_at_most-above :
    (x k b : ℕ) (ps : List Span) (q : Span)
    → Separated b ps
    → x < b
    → last_at_most k ps ≡ some q
    → x < q.start
unfolding last_at_most
last_at_most-above x k b [] q s h e = ground arith
last_at_most-above x k b (p ∷ ps) q s h e =
    ground (arith, last_at_most-above x k (p.end + 1) ps q s.2)

All-append {ℓ} :
    {A : Type ℓ} (P : A → Type 0) (xs ys : List A) → All P xs → All P ys → All P (xs ++ ys)
All-append P [] ys h k = k
All-append P (x ∷ xs) ys h k = (h.0, All-append P xs ys h.1 k)

absorb_predecessor-above :
    (x : ℕ) (r : ByteRange) (o : Option Span)
    → x < r.start
    → ((q : Span) → o ≡ some q → x < q.start)
    → All (λ s. x < s) (absorb_predecessor r o).starts × (x < (absorb_predecessor r o).start)
unfolding absorb_predecessor
absorb_predecessor-above x r none h k = (tt, h)
absorb_predecessor-above x r (some q) h k = ground (arith, k q refl)

-- What the loops collect lies after every span before the ones they look at.
absorbed-above :
    (x b : ℕ) (ps : List Span) (r : ByteRange)
    → Separated b ps
    → x < b
    → x < r.start
    → All (λ s. x < s) (absorbed ps r).starts × (x < (absorbed ps r).start)
unfolding absorbed
absorbed-above x b ps r s h k =
    let a = absorb_predecessor r (last_at_most r.start ps) in
    let qs = between r.start r.end ps in
    let low =
      absorb_predecessor-above x r (last_at_most r.start ps) k
        (λ q e. last_at_most-above x r.start b ps q s h e) in
    (
      rw (starts-absorb_following a qs) (
          All-append (λ t. x < t) a.starts (starts_of qs) low.0
            (starts_of-between-above x r.start r.end b ps s h)),
      rw (start-absorb_following a qs) low.1,
    )

insert_entry-after :
    (s e : ℕ) (p : Span) (ps : List Span)
    → p.start < s
    → insert_entry s e (p ∷ ps) ≡ p ∷ insert_entry s e ps
unfolding insert_entry
insert_entry-after s e p ps h = ground arith

insert_spans-skip :
    (b : ℕ) (p : Span) (ps : List Span) (r : ByteRange)
    → Separated b (p ∷ ps)
    → p.end < r.start
    → insert_spans (p ∷ ps) r ≡ p ∷ insert_spans ps r
unfolding insert_spans
insert_spans-skip b p ps r s h =
    let a = absorbed ps r in
    let above = absorbed-above p.start (p.end + 1) ps r s.2 (omega arith) (omega arith) in
    rw (absorbed-skip p ps r s.1 h, remove_all-cons a.starts p ps above.0)
      (insert_entry-after a.start a.end p (remove_all a.starts ps) above.1)

-- The state in which the second loop starts when the range touches the first span.
unfoldable pub touching : ByteRange → Span → Absorbed
touching r p = record {
  starts = p.start ∷ [];
  bytes = wrapping_sub p.end p.start;
  start = min r.start p.start;
  end = max r.end p.end;
}

last_at_most_first :
    (b k : ℕ) (p : Span) (ps : List Span)
    → Separated b (p ∷ ps)
    → p.start ≤ k
    → k ≤ p.end
    → last_at_most k (p ∷ ps) ≡ some p
unfolding last_at_most
last_at_most_first b k p ps s h l = ground (arith, last_at_most_above k (p.end + 1) ps s.2)

between_out :
    (lo hi : ℕ) (p : Span) (ps : List Span)
    → p.start ≤ lo
    → between lo hi (p ∷ ps) ≡ between lo hi ps
unfolding between
between_out lo hi p ps h = ground arith

-- The first loop takes the span, or the second loop takes it first.
touching-predecessor :
    (p : Span) (r : ByteRange)
    → p.start ≤ r.start
    → r.start ≤ p.end
    → absorb_predecessor r (some p) ≡ touching r p
unfolding absorb_predecessor touching
touching-predecessor p r h k = ground arith

touching-absorb :
    (p : Span) (r : ByteRange)
    → r.start < p.start
    → absorb (absorb_predecessor r none) p ≡ touching r p
unfolding absorb_predecessor touching absorb wrapping_add wrapping_sub
touching-absorb p r h = ground arith

pub absorbed-touching :
    (b : ℕ) (p : Span) (ps : List Span) (r : ByteRange)
    → Separated b (p ∷ ps)
    → r.start ≤ p.end
    → p.start ≤ r.end
    → absorbed (p ∷ ps) r ≡ absorb_following (touching r p) (between r.start r.end ps)
unfolding absorbed
absorbed-touching b p ps r s k l = elim (Bool-cases (leb p.start r.start)) [
  | inl e ↦ rw (
    last_at_most_first b r.start p ps s (ground arith) k,
    between_out r.start r.end p ps (ground arith),
    touching-predecessor p r (ground arith) k,
  )
  | inr e ↦
      rw
        (
          last_at_most_above r.start p.start (p ∷ ps) (omega arith, s.1, s.2) (ground arith),
          between_in r.start r.end p ps (ground arith) l,
        )
        (unfold absorb_following in
          ap (λ a. absorb_following a (between r.start r.end ps))
            (touching-absorb p r (ground arith)))
]

insert_spans-touching :
    (b : ℕ) (p : Span) (ps : List Span) (r : ByteRange)
    → Separated b (p ∷ ps)
    → r.start ≤ p.end
    → p.start ≤ r.end
    → insert_spans (p ∷ ps) r ≡ swallow (min r.start p.start) (max r.end p.end) r.end ps
unfolding insert_spans
insert_spans-touching b p ps r s k l =
    let a = touching r p in
    let qs = between r.start r.end ps in
    rw (absorbed-touching b p ps r s k l, starts-absorb_following a qs, start-absorb_following a qs)
      (unfold touching remove_all remove in
        ground (
          arith,
          insert_entry-swallow r.start r.end (p.end + 1) (touching r p) ps s.2 (omega arith)
              (omega arith),
        ))

insert_entry-first :
    (b s e : ℕ) (ps : List Span) → Separated b ps → s < b → insert_entry s e ps ≡ span s e ∷ ps
unfolding insert_entry
insert_entry-first b s e [] t h = refl
insert_entry-first b s e (p ∷ ps) t h = ground arith

insert_spans-before :
    (b : ℕ) (ps : List Span) (r : ByteRange)
    → Separated b ps
    → r.start < r.end
    → r.end < b
    → insert_spans ps r ≡ span r.start r.end ∷ ps
unfolding insert_spans absorbed
insert_spans-before b ps r s h k =
    rw (last_at_most_above r.start b ps s (omega arith), between_above r.start r.end b ps s k)
      (unfold absorb_predecessor absorb_following remove_all in
        insert_entry-first b r.start r.end ps s (omega arith))

-- On separated spans, what the map's operations compute is the merge.
pub insert_spans-eq-merge :
    (b : ℕ) (spans : List Span) (r : ByteRange)
    → Separated b spans
    → r.start < r.end
    → insert_spans spans r ≡ merge r spans
unfolding merge
insert_spans-eq-merge b [] r s h = insert_spans-before (r.end + 1) [] r tt h (omega arith)
insert_spans-eq-merge b (p ∷ ps) r s h = ground (
  arith,
  insert_spans-skip b p ps r s,
  insert_spans-before p.start (p ∷ ps) r (omega arith, s.1, s.2) h,
  insert_spans-touching b p ps r s,
  insert_spans-eq-merge (p.end + 1) ps r s.2 h,
)
