-- ===== src/Gstreamer/Mp4/Split.antt =====
-- The fragments of a track: their samples, the division of one, and the places of their payloads.
pub mod Pushes
pub mod Partition
use rustorr.Base.{
  ℕ, zero, suc, ◌+◌, ◌-◌, ◌*◌, ◌/◌, ◌%◌, Bool, true, false, Option, none, some, List, [], ◌∷◌, ◌++◌,
  if◌then◌else◌, ◌==◌, ltb, leb, not, ◌&&◌, ◌||◌, Result, ok, err, ◌>>=◌, ok_or, length, take, drop,
  min, checked_add, wrapping_add, wrapping_sub, u64_mod,
}
use rustorr.Gstreamer.Mp4
use rustorr.Gstreamer.Mp4.{Mp4Error, Sample, Run, Fragment, is_sync_sample, sign_extend}
use rustorr.Gstreamer.Mp4.Moof.{check, empty_run, push_sample, first_flags_of, first_sync}

-- The loop of `build_explicit_run`, and of the sums: each sample is added to the run.
unfoldable pub push_samples : Run → List Sample → Result Mp4Error Run
push_samples run [] = ok run
push_samples run (s ∷ ss) = do
  duration ← ok_or (checked_add run.duration s.duration) Mp4.derived_duration_overflow
  data_size ← ok_or (checked_add run.data_size s.size) Mp4.derived_size_overflow
  push_samples (record run { duration = duration; data_size = data_size }) ss

unfoldable pub explicit_run : Run → List Sample → Run
unfolding is_sync_sample first_flags_of empty_run
explicit_run template samples = record (empty_run template.version none) {
  samples = samples;
  has_composition_time_offsets = template.has_composition_time_offsets;
  starts_with_sync = is_sync_sample (first_flags_of samples);
}

unfoldable pub build_explicit_run : Run → List Sample → Result Mp4Error Run
unfolding check push_samples explicit_run
build_explicit_run template samples = do
  _ ← check (length samples == 0) Mp4.no_derived_samples
  run ← push_samples (explicit_run template samples) samples
  _ ← check (run.duration == 0 || run.data_size == 0) Mp4.invalid_derived_trun
  ok run

unfoldable pub count_samples : List Run → ℕ → Result Mp4Error ℕ
unfolding check
count_samples [] total = ok total
count_samples (r ∷ rs) total = do
  _ ← check (length r.samples == 0) Mp4.empty_run
  count_samples rs (total + length r.samples)

unfoldable pub fragment_sample_count : Fragment → Result Mp4Error ℕ
unfolding count_samples check
fragment_sample_count fragment = do
  total ← count_samples fragment.runs 0
  _ ← check (total == 0) Mp4.empty_fragment
  ok total

-- One half of a fragment that is divided: its runs, their bytes and their duration.
pub record Half : Type 0 where
  pub runs : List Run
  pub bytes : ℕ
  pub duration : ℕ

unfoldable pub push_run : Half → Run → List Sample → Result Mp4Error Half
unfolding build_explicit_run
push_run h source samples = do
  run ← build_explicit_run source samples
  ok (record {
    runs = h.runs ++ record run { payload_offset = h.bytes } ∷ [];
    bytes = wrapping_add h.bytes run.data_size;
    duration = wrapping_add h.duration run.duration;
  })

unfoldable pub push_if : Bool → Half → Run → List Sample → Result Mp4Error Half
unfolding push_run
push_if false h source samples = ok h
push_if true h source samples = push_run h source samples

-- The loop over the source's runs; `remaining` samples go to the left half.
unfoldable pub divide : List Run → ℕ → Half → Half → Result Mp4Error (ℕ × Half × Half)
unfolding check push_if
divide [] remaining left right = ok (remaining, left, right)
divide (source ∷ sources) remaining left right = do
  _ ← check (length source.samples == 0) Mp4.unsplittable_run
  left' ←
      push_if (ltb 0 (min remaining (length source.samples))) left source
        (take (min remaining (length source.samples)) source.samples)
  right' ←
      push_if (ltb (min remaining (length source.samples)) (length source.samples)) right source
        (drop (min remaining (length source.samples)) source.samples)
  divide sources (remaining - min remaining (length source.samples)) left' right'

-- A fragment of the same track, without its place and its samples.
unfoldable pub template_of : Fragment → Fragment
template_of fragment = record {
  track_id = fragment.track_id;
  timescale = fragment.timescale;
  decode_time = 0;
  duration = 0;
  starts_with_sync = false;
  sample_description_index = fragment.sample_description_index;
  tfhd = fragment.tfhd;
  runs = [];
  payload_start = 0;
  payload_len = 0;
  has_inferred_duration = false;
}

unfoldable pub left_fragment : Fragment → Half → Fragment
unfolding template_of first_sync
left_fragment fragment left = record (template_of fragment) {
  decode_time = fragment.decode_time;
  duration = left.duration;
  starts_with_sync = first_sync left.runs;
  runs = left.runs;
  payload_start = fragment.payload_start;
  payload_len = left.bytes;
}

unfoldable pub right_fragment : Fragment → ℕ → ℕ → Half → Fragment
unfolding template_of first_sync
right_fragment fragment split_byte decode_time right = record (template_of fragment) {
  decode_time = decode_time;
  duration = right.duration;
  starts_with_sync = first_sync right.runs;
  runs = right.runs;
  payload_start = wrapping_add fragment.payload_start split_byte;
  payload_len = wrapping_sub fragment.payload_len split_byte;
}

unfoldable pub halves_of : Fragment → ℕ × Half × Half → Result Mp4Error (Fragment × Fragment)
unfolding check left_fragment right_fragment
halves_of fragment (remaining, left, right) = do
  _ ←
      check (not (remaining == 0) || length left.runs == 0 || length right.runs == 0)
        Mp4.unpartitioned
  _ ←
      check (not (wrapping_add left.duration right.duration == fragment.duration))
        Mp4.split_duration_mismatch
  _ ←
      check (not (wrapping_add left.bytes right.bytes == fragment.payload_len))
        Mp4.split_payload_mismatch
  decode_time ←
      ok_or (checked_add fragment.decode_time left.duration) Mp4.right_decode_time_overflow
  ok (left_fragment fragment left, right_fragment fragment left.bytes decode_time right)

abbrev pub empty_half : Half
empty_half = record { runs = []; bytes = 0; duration = 0 }

unfoldable pub split_fragment_at_sample : Fragment → ℕ → Result Mp4Error (Fragment × Fragment)
unfolding fragment_sample_count check divide halves_of
split_fragment_at_sample fragment split = do
  total ← fragment_sample_count fragment
  _ ← check (split == 0 || leb total split) (Mp4.split_outside split total)
  divided ← divide fragment.runs split empty_half empty_half
  halves_of fragment divided
