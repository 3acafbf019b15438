-- ===== src/Gstreamer/Mp4/Queue/Laws.antt =====
-- Reclaiming the payload keeps the bytes of every queued fragment.
use rustorr.Base.{
  ℕ, ◌+◌, ◌-◌, ◌≤◌, ◌≡◌, refl, ap, sym, ◌∙◌, true, false, none, some, List, [], ◌∷◌, ◌++◌, arith,
  ◌==◌, min, length, take, drop, map, Bool-cases, Option-cases, inl, inr, All,
}
use rustorr.Gstreamer.Mp4.Writer.Samples.{drop_add}
use rustorr.Gstreamer.Mp4.{Fragment}
use rustorr.Gstreamer.Mp4.Queue.{Queue, min_start, moved, moved_all, drain, reclaim_payloads}

-- The bytes that a fragment refers to.
unfoldable pub payload_of : List ℕ → Fragment → List ℕ
payload_of payload f = take f.payload_len (drop f.payload_start payload)

pub record IsAtLeast (m : ℕ) (f : Fragment) : Type 0 where
  pub start : (f.payload_len == 0) ≡ false → m ≤ f.payload_start

IsAtLeast-less :
    (fs : List Fragment) (m n : ℕ) → m ≤ n → All (IsAtLeast n) fs → All (IsAtLeast m) fs
IsAtLeast-less [] m n h a = tt
IsAtLeast-less (f ∷ fs) m n h a =
    (record { start = λ q. omega (arith, h, a.0.start q) }, IsAtLeast-less fs m n h a.1)

min_start-none : (fs : List Fragment) (m : ℕ) → min_start fs ≡ none → All (IsAtLeast m) fs
unfolding min_start
min_start-none [] m e = tt
min_start-none (f ∷ fs) m e = elim (Bool-cases (f.payload_len == 0)) [
  | inl q ↦
      (record { start = λ q'. ground (arith, q, q') }, min_start-none fs m (ground (arith, e, q)))
  | inr q ↦ ground (arith, e, q)
]

min_start-IsAtLeast : (fs : List Fragment) (m : ℕ) → min_start fs ≡ some m → All (IsAtLeast m) fs
unfolding min_start
min_start-IsAtLeast [] m e = tt
min_start-IsAtLeast (f ∷ fs) m e = elim (Bool-cases (f.payload_len == 0)) [
  | inl q ↦ (
    record { start = λ q'. ground (arith, q, q') },
    min_start-IsAtLeast fs m (ground (arith, e, q)),
  )
  | inr q ↦ elim (Option-cases (min_start fs)) [
    | inl none_left ↦
        let same : f.payload_start ≡ m = ground (arith, e, q, none_left) in
        (record { start = λ q'. omega (arith, same) }, min_start-none fs m none_left)
    | inr (n, some_left) ↦
        let same : min f.payload_start n ≡ m = ground (arith, e, q, some_left) in
        (
          record { start = λ q'. omega (arith, same) },
          IsAtLeast-less fs m n (omega (arith, same)) (min_start-IsAtLeast fs n some_left),
        )
  ]
]

All-append :
    (P : Fragment → Type 0) (fs gs : List Fragment) → All P (fs ++ gs) → All P fs × All P gs
All-append P [] gs a = (tt, a)
All-append P (f ∷ fs) gs a = let (l, r) = All-append P fs gs a.1 in ((a.0, l), r)

payload_of-empty :
    (payload payload' : List ℕ) (f : Fragment)
    → (f.payload_len == 0) ≡ true
    → payload_of payload' f ≡ payload_of payload f
unfolding payload_of
payload_of-empty payload payload' f q =
    let none_held : f.payload_len ≡ 0 = ground (arith, q) in rw none_held refl

payload_of-moved :
    (m : ℕ) (payload : List ℕ) (f : Fragment)
    → IsAtLeast m f
    → payload_of (drop m payload) (moved m f) ≡ payload_of payload f
unfolding payload_of moved
payload_of-moved m payload f h = elim (Bool-cases (f.payload_len == 0)) [
  | inl q ↦ rw (moved, q) (payload_of-empty payload (drop m payload) f q)
  | inr q ↦
      let start : m + (f.payload_start - m) ≡ f.payload_start = omega (arith, h.start q) in
      rw (moved, q)
        (ap (λ x. take f.payload_len x)
          (sym (drop_add m (f.payload_start - m) payload) ∙ ap (λ k. drop k payload) start))
]

moved_all-payloads :
    (m : ℕ) (payload : List ℕ) (fs : List Fragment)
    → All (IsAtLeast m) fs
    → map (payload_of (drop m payload)) (moved_all m fs) ≡ map (payload_of payload) fs
unfolding moved_all
moved_all-payloads m payload [] a = refl
moved_all-payloads m payload (f ∷ fs) a =
    let first = payload_of-moved m payload f a.0 in
    let rest = moved_all-payloads m payload fs a.1 in rw (first, rest) refl

no_payloads :
    (payload payload' : List ℕ) (fs : List Fragment)
    → min_start fs ≡ none
    → map (payload_of payload') fs ≡ map (payload_of payload) fs
unfolding min_start
no_payloads payload payload' [] e = refl
no_payloads payload payload' (f ∷ fs) e = elim (Bool-cases (f.payload_len == 0)) [
  | inl q ↦
      let first = payload_of-empty payload payload' f q in
      let rest = no_payloads payload payload' fs (ground (arith, e, q)) in rw (first, rest) refl
  | inr q ↦ ground (arith, e, q)
]

none-append :
    (fs gs : List Fragment)
    → min_start (fs ++ gs) ≡ none
    → (min_start fs ≡ none) × (min_start gs ≡ none)
unfolding min_start
none-append [] gs e = (refl, e)
none-append (f ∷ fs) gs e = elim (Bool-cases (f.payload_len == 0)) [
  | inl q ↦ let (l, r) = none-append fs gs (ground (arith, e, q)) in (ground (arith, q, l), r)
  | inr q ↦ absurd (ground (arith, e, q))
]

-- The queued fragments refer to the same bytes in both.
pub record KeepsPayloads (q q' : Queue) : Type 0 where
  pub video :
      map (payload_of q'.source_payload) q'.video ≡ map (payload_of q.source_payload) q.video
  pub audio :
      map (payload_of q'.source_payload) q'.audio ≡ map (payload_of q.source_payload) q.audio

-- Every fragment, in both queues, refers to the same bytes after `reclaim_payloads` as before.
pub reclaim_payloads-KeepsPayloads : (q : Queue) → KeepsPayloads q (reclaim_payloads q)
unfolding reclaim_payloads drain
reclaim_payloads-KeepsPayloads q = elim (Bool-cases (length q.source_payload == 0)) [
  | inl e ↦ rw (reclaim_payloads, e) (record { video = refl; audio = refl })
  | inr e ↦ elim (Option-cases (min_start (q.video ++ q.audio))) [
    | inl none_left ↦
        let (v, a) = none-append q.video q.audio none_left in
        rw (reclaim_payloads, e, none_left)
          (record {
            video = no_payloads q.source_payload [] q.video v;
            audio = no_payloads q.source_payload [] q.audio a;
          })
    | inr (m, some_left) ↦
        let (v, a) =
          All-append (IsAtLeast m) q.video q.audio
            (min_start-IsAtLeast (q.video ++ q.audio) m some_left) in
        elim (Bool-cases (m == 0)) [
          | inl z ↦
              rw (reclaim_payloads, e, some_left, drain, z) (record { video = refl; audio = refl })
          | inr z ↦
              rw (reclaim_payloads, e, some_left, drain, z)
                (record {
                  video = moved_all-payloads m q.source_payload q.video v;
                  audio = moved_all-payloads m q.source_payload q.audio a;
                })
        ]
  ]
]
