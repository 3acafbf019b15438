-- ===== src/Gstreamer/Mp4/Writer/RoundTrip.antt =====
-- A `trun` that is written is read back by `normalize_trun` as the same run.
use rustorr.Base.{
  ℕ, zero, suc, ◌+◌, ◌*◌, ◌%◌, ◌≤◌, ◌<◌, ◌≡◌, ◌≢◌, refl, sym, ◌∙◌, Bool, true, false, some, List,
  [], ◌++◌, arith, ltb, ◌==◌, ok, length, drop, All, u32_mod, u64_mod, if◌then◌else◌,
}
use rustorr.Gstreamer.Mp4.{
  Run, sum_durations, sum_sizes, is_sync_sample, bit_and, has_flag, without_bits,
}
use rustorr.Gstreamer.Mp4.Boxes.{be32, read_u32}
use rustorr.Gstreamer.Mp4.Moof.{
  normalize_samples, normalize_trun, check, count_fields, first_flags_of, empty_run,
  read_data_offset,
}
use rustorr.Gstreamer.Mp4.Writer.{
  be_bytes32, samples_bytes, canonical_trun_size, canonical_flags, trun_bytes, write_canonical_trun,
}
use rustorr.Gstreamer.Mp4.Writer.Sizes.{be32-be_bytes32, length-samples_bytes}
use rustorr.Gstreamer.Mp4.Writer.Samples.{
  IsAt, read_u32-IsAt, IsSample, fields_of, with_samples, read_samples-IsAt,
}

normalize_trun-header :
    (buf : List ℕ) (d z f version count data_offset : ℕ) (offsets hint : Bool)
    → version ≤ 1
    → count ≢ 0
    → 8 + 8 ≤ length buf
    → be32 (drop 8 buf) ≡ version * 16777216 + canonical_flags offsets
    → be32 (drop 12 buf) ≡ count
    → read_u32 buf 16 ≡ some (data_offset, 20)
    → normalize_trun buf 8 d z f hint
      ≡ normalize_samples
          (fields_of d z f offsets)
          buf
          count
          20
          (empty_run version (some data_offset))
          hint
unfolding normalize_trun read_data_offset canonical_flags check fields_of has_flag without_bits
    bit_and
normalize_trun-header buf d z f zero count data_offset true hint v c l e e' r =
    let word : be32 (drop 8 buf) ≡ 3841 = e in
    let long : ltb (length buf) 16 ≡ false = ground (arith, l) in
    let some_samples : (count == 0) ≡ false = ground (arith, c) in
    rw (normalize_trun, word, e', long, some_samples, r) refl
normalize_trun-header buf d z f zero count data_offset false hint v c l e e' r =
    let word : be32 (drop 8 buf) ≡ 1793 = e in
    let long : ltb (length buf) 16 ≡ false = ground (arith, l) in
    let some_samples : (count == 0) ≡ false = ground (arith, c) in
    rw (normalize_trun, word, e', long, some_samples, r) refl
normalize_trun-header buf d z f (suc zero) count data_offset true hint v c l e e' r =
    let word : be32 (drop 8 buf) ≡ 16781057 = e in
    let long : ltb (length buf) 16 ≡ false = ground (arith, l) in
    let some_samples : (count == 0) ≡ false = ground (arith, c) in
    rw (normalize_trun, word, e', long, some_samples, r) refl
normalize_trun-header buf d z f (suc zero) count data_offset false hint v c l e e' r =
    let word : be32 (drop 8 buf) ≡ 16779009 = e in
    let long : ltb (length buf) 16 ≡ false = ground (arith, l) in
    let some_samples : (count == 0) ≡ false = ground (arith, c) in
    rw (normalize_trun, word, e', long, some_samples, r) refl
normalize_trun-header buf d z f (suc (suc version)) count data_offset offsets hint v c l e e' r =
    absurd (omega (arith, v))

-- A run that the reader can have made.
pub record IsWritable (r : Run) : Type 0 where
  pub version : r.version ≤ 1
  pub samples : All (IsSample r.has_composition_time_offsets) r.samples
  pub count : (length r.samples ≢ 0) × (length r.samples ≤ 1000000)
  pub duration : (r.duration ≡ sum_durations r.samples) × (r.duration < u64_mod) × (r.duration ≢ 0)
  pub data_size : (r.data_size ≡ sum_sizes r.samples) × (r.data_size < u64_mod) × (r.data_size ≢ 0)
  pub sync : r.starts_with_sync ≡ is_sync_sample (first_flags_of r.samples)

-- The run as it is read back.
unfoldable pub as_read : Run → ℕ → Run
as_read r data_offset = record r {
  source_data_offset = some data_offset;
  payload_offset = 0;
  output_offset = 0;
  has_inferred_duration = false;
}

fields_size :
    (d z f n : ℕ) (offsets : Bool)
    → n * count_fields (fields_of d z f offsets) * 4 ≡ n * (if offsets then 16 else 12)
unfolding count_fields fields_of
fields_size d z f n true = omega arith
fields_size d z f n false = omega arith

normalize_samples-trun_bytes :
    (r : Run) (data_offset d z f : ℕ) (hint : Bool)
    → IsWritable r
    → IsAt (trun_bytes r data_offset) 20 (samples_bytes r.has_composition_time_offsets r.samples)
    → normalize_samples
        (fields_of d z f r.has_composition_time_offsets)
        (trun_bytes r data_offset)
        (length r.samples)
        20
        (empty_run r.version (some data_offset))
        hint
      ≡ ok (as_read r data_offset)
unfolding normalize_samples check fields_of empty_run with_samples as_read
normalize_samples-trun_bytes r data_offset d z f hint w a =
    let buf = trun_bytes r data_offset in
    let n = length r.samples in
    let few : ltb 1000000 n ≡ false = ground (arith, w.count) in
    let sizes = fields_size d z f n r.has_composition_time_offsets in
    let total = length-samples_bytes r.has_composition_time_offsets r.samples in
    let fits : (20 + n * count_fields (fields_of d z f r.has_composition_time_offsets) * 4
          == length buf)
        ≡ true =
      ground (arith, sizes, total, a.ends) in
    let read =
      read_samples-IsAt d z f r.has_composition_time_offsets true buf 20 r.samples
        (empty_run r.version (some data_offset)) w.samples a (omega (arith, w.duration))
        (omega (arith, w.data_size)) in
    let time : 0 + sum_durations r.samples ≡ r.duration = omega (arith, w.duration) in
    let bytes : 0 + sum_sizes r.samples ≡ r.data_size = omega (arith, w.data_size) in
    let whole : (length buf == length buf) ≡ true = ground arith in
    let lasting : (r.duration == 0) ≡ false = ground (arith, w.duration) in
    let filled : (r.data_size == 0) ≡ false = ground (arith, w.data_size) in
    rw (normalize_samples, few, fits, read, time, bytes, whole, lasting, filled, sym w.sync) refl

canonical_flags_low : (offsets : Bool) → canonical_flags offsets < 16777216
unfolding canonical_flags
canonical_flags_low true = omega arith
canonical_flags_low false = omega arith

trun_bytes-IsAt :
    (r : Run) (data_offset : ℕ)
    → IsAt (trun_bytes r data_offset) 20 (samples_bytes r.has_composition_time_offsets r.samples)
unfolding trun_bytes be_bytes32
trun_bytes-IsAt r data_offset = record { bytes = refl; ends = omega arith }

trun_bytes-flags :
    (r : Run) (data_offset : ℕ)
    → r.version ≤ 1
    → be32 (drop 8 (trun_bytes r data_offset))
      ≡ r.version * 16777216 + canonical_flags r.has_composition_time_offsets
unfolding trun_bytes be_bytes32
trun_bytes-flags r data_offset v =
    be32-be_bytes32 (r.version * 16777216 + canonical_flags r.has_composition_time_offsets)
      (be_bytes32 (length r.samples % u32_mod)
        ++ be_bytes32 data_offset
        ++ samples_bytes r.has_composition_time_offsets r.samples)
      (omega (arith, v, canonical_flags_low r.has_composition_time_offsets))

trun_bytes-count :
    (r : Run) (data_offset : ℕ)
    → length r.samples < u32_mod
    → be32 (drop 12 (trun_bytes r data_offset)) ≡ length r.samples
unfolding trun_bytes be_bytes32
trun_bytes-count r data_offset h =
    be32-be_bytes32 (length r.samples % u32_mod)
      (be_bytes32 data_offset ++ samples_bytes r.has_composition_time_offsets r.samples)
      (omega arith)
    ∙ omega (arith, h)

trun_bytes-offset :
    (r : Run) (data_offset : ℕ)
    → data_offset < u32_mod
    → read_u32 (trun_bytes r data_offset) 16 ≡ some (data_offset, 20)
unfolding trun_bytes be_bytes32
trun_bytes-offset r data_offset low =
    read_u32-IsAt (trun_bytes r data_offset) 16 data_offset
      (samples_bytes r.has_composition_time_offsets r.samples) low
      (record { bytes = refl; ends = omega arith })

size_low :
    (offsets : Bool) (n : ℕ)
    → n ≤ 1000000
    → (20 + n * (if offsets then 16 else 12)) % u64_mod < u32_mod
size_low true n h = omega (arith, h)
size_low false n h = omega (arith, h)

write_canonical_trun-IsWritable :
    (r : Run) (data_offset : ℕ)
    → IsWritable r
    → write_canonical_trun [] r data_offset ≡ ok (trun_bytes r data_offset)
unfolding write_canonical_trun canonical_trun_size
write_canonical_trun-IsWritable r data_offset w =
    let some_samples : (length r.samples == 0) ≡ false = ground (arith, w.count) in
    let known : ltb 1 r.version ≡ false = ground (arith, w.version) in
    let low = size_low r.has_composition_time_offsets (length r.samples) w.count.1 in
    let fits : ltb (canonical_trun_size r) u32_mod ≡ true = ground (arith, low) in
    rw (write_canonical_trun, some_samples, known, fits) refl

-- A run with explicit samples is written, and read back from what was written as the same run, at the
-- given offset; the defaults of the track do not matter.
pub normalize_trun-write_canonical_trun :
    (r : Run) (data_offset d z f : ℕ) (hint : Bool)
    → IsWritable r
    → data_offset < u32_mod
    → (written : List ℕ) × (write_canonical_trun [] r data_offset ≡ ok written)
      × (normalize_trun written 8 d z f hint ≡ ok (as_read r data_offset))
normalize_trun-write_canonical_trun r data_offset d z f hint w low =
    let buf = trun_bytes r data_offset in
    let at_samples = trun_bytes-IsAt r data_offset in
    let head =
      normalize_trun-header buf d z f r.version (length r.samples) data_offset
        r.has_composition_time_offsets hint w.version w.count.0 (omega (arith, at_samples.ends))
        (trun_bytes-flags r data_offset w.version)
        (trun_bytes-count r data_offset (omega (arith, w.count)))
        (trun_bytes-offset r data_offset low) in
    (
      buf,
      write_canonical_trun-IsWritable r data_offset w,
      head ∙ normalize_samples-trun_bytes r data_offset d z f hint w at_samples,
    )
