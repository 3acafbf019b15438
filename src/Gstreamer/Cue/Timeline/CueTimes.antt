-- ===== src/Gstreamer/Cue/Timeline/CueTimes.antt =====
-- The cue times of a video track: which numbers they are.
use rustorr.Base.{
  ℕ, ◌*◌, ◌/◌, ◌-◌, ◌<◌, ◌≤◌, ◌≡◌, ◌↔◌, ◌∙◌, refl, ap, sym, Bool, true, false, Option, none, some,
  List, [], ◌∷◌, ◌==◌, ◌||◌, if◌then◌else◌, u64_mod, arith, Has, Bool-cases, Option-cases, inl, inr,
}
use native.Mathlib.Nat.{le-div_iff_mul-le}
use rustorr.Gstreamer.Cue.Element.{Element}
use rustorr.Gstreamer.Cue.{cue_point}
use rustorr.Gstreamer.Cue.Timeline.{video_cue_time, scaled, cue_times}
use rustorr.Gstreamer.Cue.Timeline.Points.{IsVideoTime, video_cue_time_iff}

abbrev pub has : ℕ → List ℕ → Bool
has n [] = false
has n (m ∷ ms) = m == n || has n ms

-- A time before the end of the film, in nanoseconds, of one of the cue points.
pub record IsCueTime (bytes : List ℕ) (es : List Element) (video_track scale duration n : ℕ)
    : Type 0 where
  pub point : Element
  pub point_child : Has point es
  pub point_id : point.id ≡ cue_point
  pub time : ℕ
  pub of_point : IsVideoTime bytes video_track point time
  pub in_nanoseconds : n ≡ time * scale
  pub before_end : n < duration

scaled-some :
    (scale duration n : ℕ) (o : Option ℕ)
    → scaled scale duration o ≡ some n
    → (time : ℕ) × (o ≡ some time) × (n ≡ time * scale) × (n < duration)
unfolding scaled
scaled-some scale duration n none e = cc
scaled-some scale duration n (some time) e = (time, refl, ground (arith, e), ground (arith, e))

scaled-before :
    (scale duration time : ℕ)
    → 0 < scale
    → duration < u64_mod
    → time * scale < duration
    → scaled scale duration (some time) ≡ some (time * scale)
unfolding scaled
scaled-before scale duration time h k b =
    let fits : time ≤ (u64_mod - 1) / scale = (le-div_iff_mul-le h).1 (omega (arith, k, b)) in
    ground (arith, fits, b)

module _ (bytes : List ℕ) (video_track scale duration : ℕ) where
  point_time : Element → Option ℕ
  point_time e =
      if e.id == cue_point then scaled scale duration (video_cue_time bytes e video_track) else none

  cue_times-cons :
      (e : Element) (es : List Element)
      → cue_times bytes video_track scale duration (e ∷ es) ≡ elim (point_time e) [
        | none ↦ cue_times bytes video_track scale duration es
        | some time ↦ time ∷ cue_times bytes video_track scale duration es
      ]
  unfolding cue_times point_time
  cue_times-cons e es = ground arith

  point_time-IsCueTime :
      (es : List Element) (e : Element) (n : ℕ)
      → Has e es
      → point_time e ≡ some n
      → IsCueTime bytes es video_track scale duration n
  unfolding point_time
  point_time-IsCueTime es e n h q =
      let (time, at, scaled_to, below) =
        scaled-some scale duration n (video_cue_time bytes e video_track) (ground (arith, q)) in
      record {
        point = e;
        point_child = h;
        point_id = ground (arith, q);
        time = time;
        of_point = (video_cue_time_iff bytes e video_track time).0 at;
        in_nanoseconds = scaled_to;
        before_end = below;
      }

  cue_times-IsCueTime :
      (es all : List Element) (n : ℕ)
      → ((e : Element) → Has e es → Has e all)
      → has n (cue_times bytes video_track scale duration es) ≡ true
      → IsCueTime bytes all video_track scale duration n
  unfolding cue_times
  cue_times-IsCueTime [] all n f h = cc
  cue_times-IsCueTime (e ∷ es) all n f h =
      let later = cue_times-IsCueTime es all n (λ x q. f x (inr q)) in
      let cons = cue_times-cons e es in
      elim (Option-cases (point_time e)) [
        | inl q ↦ later (ground (arith, h, cons, q))
        | inr (m, q) ↦ elim (Bool-cases (m == n)) [
          | inl same ↦ point_time-IsCueTime all e n (f e (inl refl)) (ground (arith, q, same))
          | inr other ↦ later (ground (arith, h, cons, q, other))
        ]
      ]

  Has-cue_times :
      (es : List Element) (e : Element) (n : ℕ)
      → Has e es
      → point_time e ≡ some n
      → has n (cue_times bytes video_track scale duration es) ≡ true
  unfolding cue_times
  Has-cue_times [] e n h q = absurd h
  Has-cue_times (x ∷ es) e n (inl same) q =
      let at : point_time x ≡ some n = ap point_time same ∙ q in
      ground (arith, cue_times-cons x es, at)
  Has-cue_times (x ∷ es) e n (inr h) q =
      let rest = Has-cue_times es e n h q in
      elim (Option-cases (point_time x)) [
        | inl p ↦ ground (arith, cue_times-cons x es, p, rest)
        | inr (m, p) ↦ ground (arith, cue_times-cons x es, p, rest)
      ]

  IsCueTime-point_time :
      (es : List Element) (n : ℕ)
      → 0 < scale
      → duration < u64_mod
      → (v : IsCueTime bytes es video_track scale duration n) → point_time v.point ≡ some n
  unfolding point_time
  IsCueTime-point_time es n h k v =
      let at = (video_cue_time_iff bytes v.point video_track v.time).1 v.of_point in
      let below =
        scaled-before scale duration v.time h k (omega (arith, v.in_nanoseconds, v.before_end)) in
      let found : scaled scale duration (video_cue_time bytes v.point video_track) ≡ some n =
        ap (scaled scale duration) at ∙ below ∙ ap some (sym v.in_nanoseconds) in
      ground (arith, v.point_id, found)

  -- A duration that fits a word leaves out no time for its size.
  pub has-cue_times :
      (es : List Element) (n : ℕ)
      → 0 < scale
      → duration < u64_mod
      → (has n (cue_times bytes video_track scale duration es) ≡ true)
        ↔ IsCueTime bytes es video_track scale duration n
  has-cue_times es n h k = (
    cue_times-IsCueTime es es n (λ x q. q),
    λ v. Has-cue_times es v.point n v.point_child (IsCueTime-point_time es n h k v),
  )
