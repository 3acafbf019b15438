-- ===== src/Gstreamer/Mp4/Tests.antt =====
-- A fragment of three samples in two runs, and the theorems about MP4 at it.
use rustorr.Base.{
  ℕ, ◌*◌, ◌/◌, ◌<◌, ◌≡◌, refl, u32_mod, u64_mod, true, false, none, some, List, [], ◌∷◌, arith, ok,
  wrapping_add, wrapping_sub,
}
use rustorr.Gstreamer.Mp4.{Sample, Run, Fragment, is_sync_sample, sum_durations, sum_sizes}
use rustorr.Gstreamer.Mp4.Boxes.{BoxAt, try_read_box, boxes_loop}
use rustorr.Gstreamer.Mp4.Boxes.Bounds.{IsInside, try_read_box-IsInside, boxes_loop_enough}
use rustorr.Gstreamer.Mp4.Moof.{normalize_trun, first_flags_of}
use rustorr.Gstreamer.Mp4.Queue.{Queue, reclaim_payloads}
use rustorr.Gstreamer.Mp4.Queue.Laws.{KeepsPayloads, reclaim_payloads-KeepsPayloads}
use rustorr.Gstreamer.Mp4.Split.{split_fragment_at_sample}
use rustorr.Gstreamer.Mp4.Split.Partition.{IsPartition, split_fragment_at_sample-IsPartition}
use rustorr.Gstreamer.Mp4.Track.{attach_payload, timeline_nanoseconds}
use rustorr.Gstreamer.Mp4.Track.Payload.{
  IsContiguous, AreSameRuns, total_size, attach_payload-IsContiguous, timeline_nanoseconds-exact,
}
use rustorr.Gstreamer.Mp4.Writer.{write_canonical_trun}
use rustorr.Gstreamer.Mp4.Writer.RoundTrip.{
  IsWritable, as_read, normalize_trun-write_canonical_trun,
}
use rustorr.Gstreamer.Mp4.Writer.Samples.{IsSample}

abbrev sample : ℕ → ℕ → Sample
sample duration size = record {
  duration = duration;
  size = size;
  flags = 0;
  composition_time_offset_raw = 0;
}

abbrev run : List Sample → ℕ → ℕ → ℕ → Run
run samples duration data_size payload_offset = record {
  source_data_offset = none;
  samples = samples;
  version = 0;
  has_composition_time_offsets = false;
  duration = duration;
  data_size = data_size;
  payload_offset = payload_offset;
  output_offset = 0;
  starts_with_sync = true;
  has_inferred_duration = false;
}

abbrev fragment : ℕ → ℕ → ℕ → ℕ → List Run → Fragment
fragment decode_time duration payload_start payload_len runs = record {
  track_id = 2;
  timescale = 1000;
  decode_time = decode_time;
  duration = duration;
  starts_with_sync = true;
  sample_description_index = 1;
  tfhd = [];
  runs = runs;
  payload_start = payload_start;
  payload_len = payload_len;
  has_inferred_duration = false;
}

abbrev two_runs : List Run
two_runs = run (sample 10 3 ∷ sample 20 4 ∷ []) 30 7 0 ∷ run (sample 30 5 ∷ []) 30 5 7 ∷ []

abbrev whole : Fragment
whole = fragment 100 60 40 12 two_runs

abbrev left_half : Fragment
left_half = fragment 100 10 40 3 (run (sample 10 3 ∷ []) 10 3 0 ∷ [])

abbrev right_half : Fragment
right_half =
    fragment 110 50 43 9 (run (sample 20 4 ∷ []) 20 4 0 ∷ run (sample 30 5 ∷ []) 30 5 4 ∷ [])

split_whole : split_fragment_at_sample whole 1 ≡ ok (left_half, right_half)
unfolding split_fragment_at_sample wrapping_add wrapping_sub
split_whole = refl

split_fragment_at_sample-IsPartition_example : IsPartition whole 1 left_half right_half
split_fragment_at_sample-IsPartition_example =
    split_fragment_at_sample-IsPartition whole left_half right_half 1 split_whole

abbrev first_run : Run
first_run = run (sample 10 3 ∷ sample 20 4 ∷ []) 30 7 0

sample-IsSample :
    (duration size : ℕ)
    → duration < u32_mod
    → size < u32_mod
    → IsSample false (sample duration size)
sample-IsSample duration size h k = record {
  duration = h;
  size = k;
  flags = omega arith;
  offset = omega arith;
}

first_run-IsWritable : IsWritable first_run
unfolding sum_durations sum_sizes is_sync_sample first_flags_of
first_run-IsWritable = record {
  version = omega arith;
  samples = (
    sample-IsSample 10 3 (omega arith) (omega arith),
    (sample-IsSample 20 4 (omega arith) (omega arith), tt),
  );
  count = (omega arith, omega arith);
  duration = (omega arith, omega arith, omega arith);
  data_size = (omega arith, omega arith, omega arith);
  sync = refl;
}

normalize_trun-write_canonical_trun_example :
    (written : List ℕ) × (write_canonical_trun [] first_run 108 ≡ ok written)
    × (normalize_trun written 8 0 0 0 false ≡ ok (as_read first_run 108))
normalize_trun-write_canonical_trun_example =
    normalize_trun-write_canonical_trun first_run 108 0 0 0 false first_run-IsWritable (omega arith)

abbrev bytes : List ℕ
bytes = 1 ∷ 2 ∷ 3 ∷ 4 ∷ 5 ∷ 6 ∷ []

abbrev queue : Queue
queue = record {
  video = fragment 0 10 2 2 [] ∷ fragment 10 10 4 2 [] ∷ [];
  audio = fragment 0 10 0 0 [] ∷ [];
  source_payload = bytes;
  current_payload_start = 6;
}

reclaim_payloads-KeepsPayloads_example : KeepsPayloads queue (reclaim_payloads queue)
reclaim_payloads-KeepsPayloads_example = reclaim_payloads-KeepsPayloads queue

-- Both runs declare where their data is: 108 bytes from the `moof`, the second behind the first.
abbrev declared : Fragment
declared = record whole {
  runs =
      record (run (sample 10 3 ∷ sample 20 4 ∷ []) 30 7 0) { source_data_offset = some 108 }
      ∷ record (run (sample 30 5 ∷ []) 30 5 7) { source_data_offset = some 115 }
      ∷ [];
}

attached : attach_payload declared 40 12 108 ≡ ok declared
unfolding attach_payload wrapping_add wrapping_sub
attached = refl

declared-fits : total_size declared.runs < u64_mod
unfolding total_size
declared-fits = omega arith

attach_payload-IsContiguous_example :
    IsContiguous 108 0 declared.runs declared.payload_len
    × (declared.payload_start ≡ 40)
    × (declared.payload_len ≡ 12)
    × AreSameRuns declared.runs declared.runs
attach_payload-IsContiguous_example =
    attach_payload-IsContiguous declared declared 40 12 108 (omega arith) declared-fits attached

half_second : timeline_nanoseconds 45000 90000 ≡ ok 500000000
unfolding timeline_nanoseconds
half_second = refl

timeline_nanoseconds-exact_example : 500000000 ≡ 45000 * 1000000000 / 90000
timeline_nanoseconds-exact_example = timeline_nanoseconds-exact 45000 90000 500000000 half_second

abbrev free_box_bytes : List ℕ
free_box_bytes = 0 ∷ 0 ∷ 0 ∷ 9 ∷ 102 ∷ 114 ∷ 101 ∷ 101 ∷ 7 ∷ 0 ∷ []

abbrev free_box_at : BoxAt
free_box_at = record {
  kind = 1718773093;
  header = 8;
  bytes = 0 ∷ 0 ∷ 0 ∷ 9 ∷ 102 ∷ 114 ∷ 101 ∷ 101 ∷ 7 ∷ [];
  end = 9;
}

read_free : try_read_box free_box_bytes 0 ≡ some free_box_at
unfolding try_read_box
read_free = refl

try_read_box-IsInside_example : IsInside free_box_bytes 0 free_box_at
try_read_box-IsInside_example = try_read_box-IsInside free_box_bytes 0 free_box_at read_free

boxes_loop_enough_example : boxes_loop 11 free_box_bytes 0 ≡ boxes_loop 10 free_box_bytes 0
boxes_loop_enough_example = boxes_loop_enough 10 free_box_bytes 0 (omega arith)
