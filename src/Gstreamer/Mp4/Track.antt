-- ===== src/Gstreamer/Mp4/Track.antt =====
-- The fragments of one track: where their samples stand in the payload, and on the timeline.
pub mod Payload
use rustorr.Base.{
  ℕ, ◌+◌, ◌-◌, ◌*◌, ◌/◌, ◌%◌, Bool, true, false, Option, none, some, List, [], ◌∷◌, ◌++◌,
  if◌then◌else◌, ◌==◌, ltb, leb, not, ◌&&◌, ◌||◌, Result, ok, err, ◌>>=◌, ok_or, length, take,
  checked_add, wrapping_add, wrapping_sub, u64_mod, i64_max,
}
use rustorr.Gstreamer.Mp4
use rustorr.Gstreamer.Mp4.{Mp4Error, Sample, Run, Fragment, sign_extend}
use rustorr.Gstreamer.Mp4.Moof.{check}

unfoldable pub end_time : Fragment → ℕ
end_time f = wrapping_add f.decode_time f.duration

-- The offset that a run states for its data, from the start of the payload; `i64` arithmetic.
unfoldable pub offset_of : Run → ℕ → ℕ → ℕ
unfolding sign_extend
offset_of run expected payload_from_moof = elim run.source_data_offset [
  | none ↦ expected
  | some offset ↦ wrapping_sub (sign_extend offset) payload_from_moof
]

-- The loop of `attach_payload` over the runs: their places, and the offset behind the last.
unfoldable pub place_runs : List Run → ℕ → ℕ → Result Mp4Error (List Run × ℕ)
unfolding offset_of check
place_runs [] payload_from_moof expected = ok ([], expected)
place_runs (run ∷ runs) payload_from_moof expected = do
  _ ←
      check (not (offset_of run expected payload_from_moof == expected))
        (Mp4.not_contiguous expected (offset_of run expected payload_from_moof))
  _ ← check (ltb i64_max run.data_size) Mp4.payload_too_large
  (placed, end) ←
      place_runs runs payload_from_moof
        (wrapping_add (offset_of run expected payload_from_moof) run.data_size)
  ok (record run { payload_offset = offset_of run expected payload_from_moof } ∷ placed, end)

-- `pending` with its payload; the caller drops it after an error.
unfoldable pub attach_payload : Fragment → ℕ → ℕ → ℕ → Result Mp4Error Fragment
unfolding place_runs check
attach_payload fragment payload_start payload_len payload_from_moof = do
  (runs, end) ← place_runs fragment.runs payload_from_moof 0
  _ ← check (not (end == payload_len)) (Mp4.mdat_mismatch end payload_len)
  ok (record fragment { runs = runs; payload_start = payload_start; payload_len = payload_len })

unfoldable pub bytes_eq : List ℕ → List ℕ → Bool
bytes_eq [] [] = true
bytes_eq [] (y ∷ ys) = false
bytes_eq (x ∷ xs) [] = false
bytes_eq (x ∷ xs) (y ∷ ys) = x == y && bytes_eq xs ys

unfoldable pub is_continued : Fragment → ℕ → Fragment → Bool
unfolding bytes_eq
is_continued first expected current =
    current.track_id == first.track_id
    && current.timescale == first.timescale
    && current.decode_time == expected
    && current.sample_description_index == first.sample_description_index
    && bytes_eq current.tfhd first.tfhd

-- The loop of `validate_track` behind the first fragment.
unfoldable pub check_continued : Fragment → ℕ → List Fragment → Result Mp4Error (Unit {0})
unfolding check is_continued bytes_eq end_time
check_continued first expected [] = ok tt
check_continued first expected (current ∷ fragments) = do
  _ ← check (not (is_continued first expected current)) (Mp4.unmergeable first.track_id)
  check_continued first (end_time current) fragments

unfoldable pub check_fragments : List Fragment → Result Mp4Error (Unit {0})
unfolding check_continued end_time
check_fragments [] = err Mp4.invalid_count
check_fragments (first ∷ fragments) = check_continued first (end_time first) fragments

unfoldable pub validate_track : List Fragment → ℕ → Result Mp4Error (Unit {0})
unfolding check check_fragments
validate_track fragments count = do
  _ ← check (count == 0 || ltb (length fragments) count) Mp4.invalid_count
  check_fragments (take count fragments)

unfoldable pub offset_runs : List Run → ℕ → List Run
offset_runs [] base = []
offset_runs (r ∷ rs) base =
    record r { output_offset = wrapping_add base r.payload_offset } ∷ offset_runs rs base

-- The fragments with their offsets in the output, and the offset behind the last; `fragments[..count]`
-- is given.
unfoldable pub assign_offsets : List Fragment → ℕ → List Fragment × ℕ
unfolding offset_runs
assign_offsets [] output_offset = ([], output_offset)
assign_offsets (f ∷ fs) output_offset =
    let (rest, end) = assign_offsets fs (wrapping_add output_offset f.payload_len) in
    (record f { runs = offset_runs f.runs output_offset } ∷ rest, end)

-- The last duration of the samples that is not 0, else the one given.
unfoldable pub last_duration : List Sample → ℕ → ℕ
last_duration [] found = found
last_duration (s ∷ ss) found = last_duration ss (if s.duration == 0 then found else s.duration)

unfoldable pub last_duration_of_runs : List Run → ℕ → ℕ
unfolding last_duration
last_duration_of_runs [] found = found
last_duration_of_runs (r ∷ rs) found = last_duration_of_runs rs (last_duration r.samples found)

unfoldable pub last_sample_duration : Fragment → ℕ
unfolding last_duration_of_runs
last_sample_duration f = last_duration_of_runs f.runs 0

unfoldable pub first_sample_of : List Run → Option (Run × Sample)
first_sample_of [] = none
first_sample_of (r ∷ rs) = elim r.samples [ [] ↦ none | s ∷ ss ↦ some (r, s) ]

-- `decode.checked_add(offset)` on `i64`, for a decode time below 2 ^ 63 and the word of an offset. With
-- an offset below 0 the sum stays in range.
unfoldable pub checked_add_offset : ℕ → ℕ → Result Mp4Error ℕ
checked_add_offset decode offset =
    if leb offset i64_max
    then (if leb (decode + offset) i64_max
        then ok (decode + offset)
        else err Mp4.presentation_overflow)
    else ok (wrapping_add decode offset)

unfoldable pub first_presentation_time : Fragment → Result Mp4Error ℕ
unfolding first_sample_of checked_add_offset sign_extend check
first_presentation_time f = do
  (r, s) ← ok_or (first_sample_of f.runs) Mp4.no_first_sample
  _ ← check (ltb i64_max f.decode_time) Mp4.decode_time_too_large
  checked_add_offset f.decode_time (
      if r.version == 1
      then sign_extend s.composition_time_offset_raw
      else s.composition_time_offset_raw)

-- The products are those of `u128`.
unfoldable pub scaled_greater_or_equal : ℕ → ℕ → ℕ → ℕ → Bool
scaled_greater_or_equal left left_scale right right_scale =
    leb (right * right_scale) (left * left_scale)

unfoldable pub checked_mul : ℕ → ℕ → Option ℕ
checked_mul a b = if ltb (a * b) u64_mod then some (a * b) else none

-- The product with the remainder stays below 2 ^ 64, since the timescale is below 2 ^ 32.
unfoldable pub timeline_nanoseconds : ℕ → ℕ → Result Mp4Error ℕ
unfolding check checked_mul
timeline_nanoseconds value timescale = do
  _ ← check (timescale == 0) Mp4.timescale_is_zero
  nanoseconds ← ok_or (checked_mul (value / timescale) 1000000000) Mp4.nanoseconds_overflow
  ok_or (checked_add nanoseconds (value % timescale * 1000000000 / timescale))
      Mp4.nanoseconds_overflow
