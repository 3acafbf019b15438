-- ===== src/Gstreamer/Mp4/Track/Payload.antt =====
-- The payload of a fragment is that of its runs, one after the other; a place on the timeline in
-- nanoseconds.
use rustorr.Base.{
  ℕ, ◌+◌, ◌*◌, ◌/◌, ◌%◌, ◌-◌, ◌<◌, ◌≤◌, ◌≡◌, refl, ap, sym, ◌∙◌, subst, Option, none, some, List,
  [], ◌∷◌, arith, ◌==◌, not, ltb, ok, ok_or, bind-ok, ok_or-ok, checked_add, wrapping_add,
  wrapping_sub, wrapping_add_lem, i64_max, u64_mod, Option-cases, inl, inr,
}
use native.Mathlib.Nat.{mul_comm, mul_right_comm, mod-add-div, add-mul-div_right, add-mul}
use rustorr.Gstreamer.Mp4
use rustorr.Gstreamer.Mp4.{Mp4Error, Run, Fragment, sign_extend}
use rustorr.Gstreamer.Mp4.Moof.{check}
use rustorr.Gstreamer.Mp4.Track.{
  offset_of, place_runs, attach_payload, checked_mul, timeline_nanoseconds,
}

-- The offset that a run declares for its data, from the start of its `moof`, is that of the byte `start`
-- of the payload; words are compared.
unfoldable pub IsDeclaredAt : Option ℕ → ℕ → ℕ → Type 0
IsDeclaredAt none payload_from_moof start = Unit
IsDeclaredAt (some offset) payload_from_moof start =
    sign_extend offset % u64_mod ≡ (payload_from_moof + start) % u64_mod

-- Each run begins where the one before it ends, and where it declares to.
unfoldable pub IsContiguous : ℕ → ℕ → List Run → ℕ → Type 0
IsContiguous payload_from_moof start [] end = start ≡ end
IsContiguous payload_from_moof start (r ∷ rs) end =
    (r.payload_offset ≡ start)
    × (r.data_size ≤ i64_max)
    × IsDeclaredAt r.source_data_offset payload_from_moof start
    × IsContiguous payload_from_moof (start + r.data_size) rs end

-- The bytes of the runs.
unfoldable pub total_size : List Run → ℕ
total_size [] = 0
total_size (r ∷ rs) = r.data_size + total_size rs

-- The runs have the same samples.
unfoldable pub AreSameRuns : List Run → List Run → Type 0
AreSameRuns [] [] = Unit
AreSameRuns [] (r' ∷ rs') = ⊥
AreSameRuns (r ∷ rs) [] = ⊥
AreSameRuns (r ∷ rs) (r' ∷ rs') =
    (r.samples ≡ r'.samples)
    × (r.data_size ≡ r'.data_size)
    × (r.source_data_offset ≡ r'.source_data_offset)
    × AreSameRuns rs rs'

check-not_equal : (a b : ℕ) (x : Mp4Error) (u : Unit {0}) → check (not (a == b)) x ≡ ok u → a ≡ b
unfolding check
check-not_equal a b x u e = ground (arith, e)

check-not_above :
    (a : ℕ) (x : Mp4Error) (u : Unit {0}) → check (ltb i64_max a) x ≡ ok u → a ≤ i64_max
unfolding check
check-not_above a x u e = ground (arith, e)

offset_of-IsDeclaredAt :
    (r : Run) (payload_from_moof start : ℕ)
    → payload_from_moof < u64_mod
    → offset_of r start payload_from_moof ≡ start
    → IsDeclaredAt r.source_data_offset payload_from_moof start
unfolding offset_of IsDeclaredAt wrapping_sub
offset_of-IsDeclaredAt r payload_from_moof start h e = elim (Option-cases r.source_data_offset) [
  | inl q ↦ rw q tt
  | inr (offset, q) ↦
      let at : (sign_extend offset + u64_mod - payload_from_moof) % u64_mod ≡ start =
        ground (arith, e, q) in
      rw q (omega (arith, at))
]

module _ (payload_from_moof : ℕ) (word : payload_from_moof < u64_mod) where
  place_runs-IsContiguous :
      (runs placed : List Run) (start end : ℕ)
      → start + total_size runs < u64_mod
      → place_runs runs payload_from_moof start ≡ ok (placed, end)
      → IsContiguous payload_from_moof start placed end × AreSameRuns runs placed
  unfolding place_runs IsContiguous AreSameRuns total_size
  place_runs-IsContiguous [] placed start end h e =
      let no_runs : [] ≡ placed = ground (arith, e) in
      let at_end : start ≡ end = ground (arith, e) in
      subst (λ x. IsContiguous payload_from_moof start x end × AreSameRuns [] x) no_runs
        (at_end, tt)
  place_runs-IsContiguous (r ∷ rs) placed start end h e =
      let offset = offset_of r start payload_from_moof in
      let (u, q, e1) =
        bind-ok (check (not (offset == start)) (Mp4.not_contiguous start offset)) _ (placed, end)
          e in
      let (u', q', e2) =
        bind-ok (check (ltb i64_max r.data_size) Mp4.payload_too_large) _ (placed, end) e1 in
      let ((rest, end'), q'', e3) =
        bind-ok (place_runs rs payload_from_moof (wrapping_add offset r.data_size)) _ (placed, end)
          e2 in
      let same = check-not_equal offset start (Mp4.not_contiguous start offset) u q in
      let next : wrapping_add offset r.data_size ≡ start + r.data_size =
        ap (λ x. wrapping_add x r.data_size) same
        ∙ wrapping_add_lem start r.data_size (omega arith) in
      let at_rest =
        place_runs-IsContiguous rs rest (start + r.data_size) end' (omega arith)
          (ap (place_runs rs payload_from_moof) (sym next) ∙ q'') in
      let runs : record r { payload_offset = offset } ∷ rest ≡ placed = ground (arith, e3) in
      let at_end : end' ≡ end = ground (arith, e3) in
      subst (λ x. IsContiguous payload_from_moof start x end × AreSameRuns (r ∷ rs) x) runs
        (
          (
            same,
            check-not_above r.data_size Mp4.payload_too_large u' q',
            offset_of-IsDeclaredAt r payload_from_moof start word same,
            subst (λ x. IsContiguous payload_from_moof (start + r.data_size) rest x) at_end
                at_rest.0,
          ),
          (refl, refl, refl, at_rest.1),
        )

-- When the sizes of the runs add up within a word, an `mdat` that is accepted is filled by the runs of
-- its `moof`, one after the other from its first byte to its last: each begins where the one before it
-- ends, at the data offset that it declares when it declares one, and no run is larger than `i64::MAX`.
-- Their samples, sizes and declared offsets stay as they were.
pub attach_payload-IsContiguous :
    (f f' : Fragment) (payload_start payload_len payload_from_moof : ℕ)
    → payload_from_moof < u64_mod
    → total_size f.runs < u64_mod
    → attach_payload f payload_start payload_len payload_from_moof ≡ ok f'
    → IsContiguous payload_from_moof 0 f'.runs f'.payload_len
      × (f'.payload_start ≡ payload_start)
      × (f'.payload_len ≡ payload_len)
      × AreSameRuns f.runs f'.runs
unfolding attach_payload
attach_payload-IsContiguous f f' payload_start payload_len payload_from_moof word fits e =
    let ((runs, end), q, e1) = bind-ok (place_runs f.runs payload_from_moof 0) _ f' e in
    let (u, q', e2) =
      bind-ok (check (not (end == payload_len)) (Mp4.mdat_mismatch end payload_len)) _ f' e1 in
    let placed = place_runs-IsContiguous payload_from_moof word f.runs runs 0 end (omega arith) q in
    let full : end ≡ payload_len =
      check-not_equal end payload_len (Mp4.mdat_mismatch end payload_len) u q' in
    let same : record f { runs = runs; payload_start = payload_start; payload_len = payload_len }
        ≡ f' =
      ground (arith, e2) in
    subst
      (λ x.
        IsContiguous payload_from_moof 0 x.runs x.payload_len
        × (x.payload_start ≡ payload_start)
        × (x.payload_len ≡ payload_len)
        × AreSameRuns f.runs x.runs)
      same
      (subst (λ x. IsContiguous payload_from_moof 0 runs x) full placed.0, refl, refl, placed.1)

checked_mul-some : (a b n : ℕ) → checked_mul a b ≡ some n → a * b ≡ n
unfolding checked_mul
checked_mul-some a b n e = ground (arith, e)

checked_add-some : (a b n : ℕ) → checked_add a b ≡ some n → a + b ≡ n
checked_add-some a b n e = ground (arith, e)

check-positive : (a : ℕ) (x : Mp4Error) (u : Unit {0}) → check (a == 0) x ≡ ok u → 0 < a
unfolding check
check-positive a x u e = ground (arith, e)

scaled_div : (v t k : ℕ) → 0 < t → v * k / t ≡ v / t * k + v % t * k / t
scaled_div v t k h =
    let parts : v ≡ v % t + v / t * t =
      sym (ap (λ x. v % t + x) (mul_comm (v / t) t) ∙ mod-add-div v t) in
    let scaled : v * k ≡ v % t * k + v / t * k * t =
      ap (λ x. x * k) parts
      ∙ add-mul (v % t) (v / t * t) k
      ∙ ap (λ x. v % t * k + x) (mul_right_comm (v / t) t k) in
    ap (λ x. x / t) scaled ∙ add-mul-div_right (v % t * k) (v / t * k) h ∙ omega arith

-- The nanoseconds of a timestamp are exact, rounded down, whenever they are not an error.
pub timeline_nanoseconds-exact :
    (value timescale nanoseconds : ℕ)
    → timeline_nanoseconds value timescale ≡ ok nanoseconds
    → nanoseconds ≡ value * 1000000000 / timescale
unfolding timeline_nanoseconds
timeline_nanoseconds-exact value timescale nanoseconds e =
    let (u, q, e1) = bind-ok (check (timescale == 0) Mp4.timescale_is_zero) _ nanoseconds e in
    let (s, q', e2) =
      bind-ok (ok_or (checked_mul (value / timescale) 1000000000) Mp4.nanoseconds_overflow) _
        nanoseconds e1 in
    let s_eq : value / timescale * 1000000000 ≡ s =
      checked_mul-some (value / timescale) 1000000000 s
        (ok_or-ok (checked_mul (value / timescale) 1000000000) Mp4.nanoseconds_overflow s q') in
    let n_eq : s + value % timescale * 1000000000 / timescale ≡ nanoseconds =
      checked_add-some s (value % timescale * 1000000000 / timescale) nanoseconds (
        ok_or-ok (checked_add s (value % timescale * 1000000000 / timescale))
          Mp4.nanoseconds_overflow nanoseconds e2) in
    let positive : 0 < timescale = check-positive timescale Mp4.timescale_is_zero u q in
    omega (arith, scaled_div value timescale 1000000000 positive, s_eq, n_eq)
