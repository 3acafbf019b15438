-- ===== src/Gstreamer/Mp4/Writer/Sizes.antt =====
-- The sizes that the boxes state are those of their bytes.
use rustorr.Base.{
  ℕ, ◌+◌, ◌*◌, ◌%◌, ◌<◌, ◌≡◌, refl, ap, subst, ◌∙◌, Bool, true, false, List, [], ◌∷◌, ◌++◌, arith,
  length, u32_mod, u64_mod, length-append, if◌then◌else◌, ok, Bool-cases, inl, inr, ltb, ◌==◌,
}
use rustorr.Gstreamer.Mp4.{Sample, Run}
use rustorr.Gstreamer.Mp4.Boxes.{be32}
use rustorr.Gstreamer.Mp4.Writer.{
  be_bytes32, sample_bytes, samples_bytes, canonical_trun_size, trun_bytes, write_canonical_trun,
}

pub be32-be_bytes32 : (w : ℕ) (rest : List ℕ) → w < u32_mod → be32 (be_bytes32 w ++ rest) ≡ w
unfolding be32 be_bytes32
be32-be_bytes32 w rest h = omega arith

pub length-be_bytes32 : (w : ℕ) → length (be_bytes32 w) ≡ 4
unfolding be_bytes32
length-be_bytes32 w = refl

pub length-samples_bytes :
    (offsets : Bool) (ss : List Sample)
    → length (samples_bytes offsets ss) ≡ length ss * (if offsets then 16 else 12)
unfolding samples_bytes sample_bytes be_bytes32
length-samples_bytes true [] = refl
length-samples_bytes false [] = refl
length-samples_bytes true (s ∷ ss) = omega (arith, length-samples_bytes true ss)
length-samples_bytes false (s ∷ ss) = omega (arith, length-samples_bytes false ss)

size_fits :
    (offsets : Bool) (n : ℕ)
    → n < u32_mod
    → (20 + n * (if offsets then 16 else 12)) % u64_mod ≡ 20 + n * (if offsets then 16 else 12)
size_fits true n h = omega arith
size_fits false n h = omega arith

pub length-trun_bytes :
    (run : Run) (data_offset : ℕ)
    → length run.samples < u32_mod
    → length (trun_bytes run data_offset) ≡ canonical_trun_size run
unfolding trun_bytes canonical_trun_size be_bytes32
length-trun_bytes run data_offset h =
    let samples = length-samples_bytes run.has_composition_time_offsets run.samples in
    let size = size_fits run.has_composition_time_offsets (length run.samples) h in
    omega (arith, samples, size)

-- A `trun` that is written has the size that its header states.
pub length-write_canonical_trun :
    (output written : List ℕ) (run : Run) (data_offset : ℕ)
    → length run.samples < u32_mod
    → write_canonical_trun output run data_offset ≡ ok written
    → length written ≡ length output + canonical_trun_size run
unfolding write_canonical_trun
length-write_canonical_trun output written run data_offset h e =
    elim (Bool-cases (length run.samples == 0)) [
      | inl q ↦ ground (arith, e, q)
      | inr q ↦ elim (Bool-cases (ltb 1 run.version)) [
        | inl q' ↦ ground (arith, e, q, q')
        | inr q' ↦ elim (Bool-cases (ltb (canonical_trun_size run) u32_mod)) [
          | inl q'' ↦
              let same : output ++ trun_bytes run data_offset ≡ written =
                ground (arith, e, q, q', q'') in
              subst (λ w. length w ≡ length output + canonical_trun_size run) same
                (length-append output (trun_bytes run data_offset)
                  ∙ ap (λ n. length output + n) (length-trun_bytes run data_offset h))
          | inr q'' ↦ ground (arith, e, q, q', q'')
        ]
      ]
    ]
