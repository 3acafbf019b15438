-- ===== src/Gstreamer/Mp4/Split/Pushes.antt =====
-- The samples that the runs of a half gain when a run is divided between the halves.
use rustorr.Base.{
  ℕ, zero, suc, ◌-◌, ◌<◌, ◌≤◌, ◌≡◌, refl, ap, sym, ◌∙◌, Bool, true, false, List, [], ◌∷◌, ◌++◌,
  arith, ltb, ◌==◌, ◌||◌, ok, bind-ok, subst, length, take, drop, min, wrapping_add, u64_mod,
  checked_add, Bool-cases, Option-cases, Result-cases, inl, inr,
}
use mathlib.Core.List.{append-nil, append_assoc}
use rustorr.Gstreamer.Mp4
use rustorr.Gstreamer.Mp4.{Mp4Error, Sample, Run, Fragment}
use rustorr.Gstreamer.Mp4.Moof.{check}
use rustorr.Gstreamer.Mp4.Split.{
  push_samples, build_explicit_run, explicit_run, push_run, push_if, Half,
}

-- The samples of the runs, in order.
unfoldable pub samples_of : List Run → List Sample
samples_of [] = []
samples_of (r ∷ rs) = r.samples ++ samples_of rs

samples_of-append :
    (rs : List Run) (r : Run) → samples_of (rs ++ r ∷ []) ≡ samples_of rs ++ r.samples
unfolding samples_of
samples_of-append [] r = append-nil r.samples
samples_of-append (q ∷ rs) r =
    ap (λ x. q.samples ++ x) (samples_of-append rs r)
    ∙ sym (append_assoc q.samples (samples_of rs) r.samples)

push_samples-samples :
    (run run' : Run) (ss : List Sample) → push_samples run ss ≡ ok run' → run'.samples ≡ run.samples
unfolding push_samples
push_samples-samples run run' [] e = ground (arith, e)
push_samples-samples run run' (s ∷ ss) e =
    elim (Option-cases (checked_add run.duration s.duration)) [
      | inl q ↦ ground (arith, e, q)
      | inr (duration, q) ↦ elim (Option-cases (checked_add run.data_size s.size)) [
        | inl q' ↦ ground (arith, e, q, q')
        | inr (data_size, q') ↦
            push_samples-samples (record run { duration = duration; data_size = data_size }) run' ss
              (ground (arith, e, q, q'))
      ]
    ]

build_explicit_run-samples :
    (template run : Run) (samples : List Sample)
    → build_explicit_run template samples ≡ ok run
    → run.samples ≡ samples
unfolding build_explicit_run check
build_explicit_run-samples template run samples e =
    let (u, q, e') = bind-ok (check (length samples == 0) Mp4.no_derived_samples) _ run e in
    let (run', q', e'') = bind-ok (push_samples (explicit_run template samples) samples) _ run e' in
    let (v, q'', e''') =
      bind-ok (check (run'.duration == 0 || run'.data_size == 0) Mp4.invalid_derived_trun) _ run
        e'' in
    let same : run' ≡ run = ground (arith, e''') in
    subst (λ r. r.samples ≡ samples) same
      (push_samples-samples (explicit_run template samples) run' samples q')

-- What a half has after a run was pushed onto it.
push_run-samples :
    (h h' : Half) (source : Run) (samples : List Sample)
    → push_run h source samples ≡ ok h'
    → (samples_of h'.runs ≡ samples_of h.runs ++ samples) × (h'.bytes < u64_mod)
unfolding push_run wrapping_add
push_run-samples h h' source samples e = elim (Result-cases (build_explicit_run source samples)) [
  | inl (run, q) ↦
      let same : record {
        runs = h.runs ++ record run { payload_offset = h.bytes } ∷ [];
        bytes = wrapping_add h.bytes run.data_size;
        duration = wrapping_add h.duration run.duration;
      }
          ≡ h' =
        ground (arith, e, q) in
      subst (λ x. (samples_of x.runs ≡ samples_of h.runs ++ samples) × (x.bytes < u64_mod)) same
        (
          samples_of-append h.runs (record run { payload_offset = h.bytes })
              ∙ ap (λ x. samples_of h.runs ++ x) (build_explicit_run-samples source run samples q),
          omega arith,
        )
  | inr (x, q) ↦ ground (arith, e, q)
]

unfoldable pub if_samples : Bool → List Sample → List Sample
if_samples false samples = []
if_samples true samples = samples

pub push_if-samples :
    (b : Bool) (h h' : Half) (source : Run) (samples : List Sample)
    → h.bytes < u64_mod
    → push_if b h source samples ≡ ok h'
    → (samples_of h'.runs ≡ samples_of h.runs ++ if_samples b samples) × (h'.bytes < u64_mod)
unfolding push_if if_samples
push_if-samples false h h' source samples low e =
    let same : h ≡ h' = ground (arith, e) in
    subst (λ x. (samples_of x.runs ≡ samples_of h.runs ++ []) × (x.bytes < u64_mod)) same
      (sym (append-nil (samples_of h.runs)), low)
push_if-samples true h h' source samples low e = push_run-samples h h' source samples e

min-suc : (a b : ℕ) → min (suc a) (suc b) ≡ suc (min a b)
min-suc a b = omega arith

take-min : (n : ℕ) (ss : List Sample) → take (min n (length ss)) ss ≡ take n ss
take-min zero ss = let none_at : min 0 (length ss) ≡ 0 = omega arith in ap (λ m. take m ss) none_at
take-min (suc n) [] = let none_at : min (suc n) 0 ≡ 0 = omega arith in ap (λ m. take m []) none_at
take-min (suc n) (s ∷ ss) = rw (min-suc n (length ss)) (ap (λ x. s ∷ x) (take-min n ss))

drop-min : (n : ℕ) (ss : List Sample) → drop (min n (length ss)) ss ≡ drop n ss
drop-min zero ss = let none_at : min 0 (length ss) ≡ 0 = omega arith in ap (λ m. drop m ss) none_at
drop-min (suc n) [] = let none_at : min (suc n) 0 ≡ 0 = omega arith in ap (λ m. drop m []) none_at
drop-min (suc n) (s ∷ ss) = rw (min-suc n (length ss)) (drop-min n ss)

pub none_taken : (n : ℕ) (ss : List Sample) → min n (length ss) ≡ 0 → take n ss ≡ []
none_taken zero ss h = refl
none_taken (suc n) [] h = refl
none_taken (suc n) (s ∷ ss) h = absurd (omega (arith, h))

pub none_left : (n : ℕ) (ss : List Sample) → length ss ≤ n → drop n ss ≡ []
none_left zero [] h = refl
none_left zero (s ∷ ss) h = absurd (omega (arith, h))
none_left (suc n) [] h = refl
none_left (suc n) (s ∷ ss) h = none_left n ss (omega (arith, h))

pub if_samples-take :
    (n : ℕ) (ss : List Sample)
    → if_samples (ltb 0 (min n (length ss))) (take (min n (length ss)) ss) ≡ take n ss
unfolding if_samples
if_samples-take n ss = elim (Bool-cases (ltb 0 (min n (length ss)))) [
  | inl q ↦ rw q (take-min n ss)
  | inr q ↦ rw q (sym (none_taken n ss (ground (arith, q))))
]

pub if_samples-drop :
    (n : ℕ) (ss : List Sample)
    → if_samples (ltb (min n (length ss)) (length ss)) (drop (min n (length ss)) ss) ≡ drop n ss
unfolding if_samples
if_samples-drop n ss = elim (Bool-cases (ltb (min n (length ss)) (length ss))) [
  | inl q ↦ rw q (drop-min n ss)
  | inr q ↦ rw q (sym (none_left n ss (ground (arith, q))))
]

pub take-append :
    (n : ℕ) (xs ys : List Sample) → take n (xs ++ ys) ≡ take n xs ++ take (n - min n (length xs)) ys
take-append zero xs ys =
    let none_more : 0 ≡ 0 - min 0 (length xs) = omega arith in ap (λ m. take m ys) none_more
take-append (suc n) [] ys =
    let all_left : suc n ≡ suc n - min (suc n) 0 = omega arith in ap (λ m. take m ys) all_left
take-append (suc n) (x ∷ xs) ys =
    let rest : n - min n (length xs) ≡ suc n - min (suc n) (suc (length xs)) = omega arith in
    ap (λ zs. x ∷ zs) (take-append n xs ys ∙ ap (λ m. take n xs ++ take m ys) rest)

pub drop-append :
    (n : ℕ) (xs ys : List Sample) → drop n (xs ++ ys) ≡ drop n xs ++ drop (n - min n (length xs)) ys
drop-append zero xs ys =
    let none_more : 0 ≡ 0 - min 0 (length xs) = omega arith in ap (λ m. xs ++ drop m ys) none_more
drop-append (suc n) [] ys =
    let all_left : suc n ≡ suc n - min (suc n) 0 = omega arith in ap (λ m. drop m ys) all_left
drop-append (suc n) (x ∷ xs) ys =
    let rest : n - min n (length xs) ≡ suc n - min (suc n) (suc (length xs)) = omega arith in
    drop-append n xs ys ∙ ap (λ m. drop n xs ++ drop m ys) rest
