-- ===== src/Gstreamer/Mp4/Moof.antt =====
-- `parse_source_moof`: the fragment that a `moof` of the source describes.
use rustorr.Base.{
  ℕ, zero, suc, ◌+◌, ◌*◌, ◌/◌, ◌%◌, Bool, true, false, Option, none, some, List, [], ◌∷◌, ◌++◌,
  if◌then◌else◌, ◌==◌, ltb, not, ◌&&◌, ◌||◌, Result, ok, err, ◌>>=◌, ok_or, length, drop,
  checked_add,
}
use rustorr.Gstreamer.Mp4
use rustorr.Gstreamer.Mp4.{
  Mp4Error, Trex, TrackIds, Tfhd, Sample, Run, Fragment, has_flag, without_bits, is_sync_sample,
  bit_and,
}
use rustorr.Gstreamer.Mp4.Boxes.{BoxAt, boxes, try_read_box, read_u32, read_tfdt, be32}
use rustorr.Gstreamer.Mp4.Writer.{canonical_tfhd}

-- A field that is read when its flag is set.
abbrev Field : Type 0 → Type 0
Field A = Result Mp4Error (A × ℕ)

unfoldable pub read_if : Bool → List ℕ → ℕ → ℕ → Mp4Error → Field ℕ
read_if present buf cursor default_value e =
    if present then ok_or (read_u32 buf cursor) e else ok (default_value, cursor)

unfoldable pub read_description_index : Bool → List ℕ → ℕ → Field (Option ℕ)
read_description_index false buf cursor = ok (none, cursor)
read_description_index true buf cursor = elim (read_u32 buf cursor) [
  | none ↦ err Mp4.invalid_description_index
  | some (value, cursor') ↦
      if value == 0 then err Mp4.invalid_description_index else ok (some value, cursor')
]

unfoldable pub read_default_flags : Bool → List ℕ → ℕ → Field (Option ℕ)
read_default_flags false buf cursor = ok (none, cursor)
read_default_flags true buf cursor = do
  (value, cursor') ← ok_or (read_u32 buf cursor) Mp4.invalid_default_flags
  ok (some value, cursor')

unfoldable pub check : Bool → Mp4Error → Result Mp4Error (Unit {0})
check bad e = if bad then err e else ok tt

-- The known flags of a `tfhd` are the bits 0, 1, 3, 4, 5, 16 and 17.
unfoldable pub parse_tfhd : List ℕ → ℕ → Result Mp4Error Tfhd
unfolding read_if read_description_index read_default_flags check
parse_tfhd buf header =
    let version_flags = be32 (drop header buf) in
    let version = version_flags / 16777216 in
    let flags = version_flags % 16777216 in
    let track_id = be32 (drop (header + 4) buf) in
    do
      _ ← check (ltb (length buf) (header + 8)) Mp4.tfhd_too_small
      _ ← check (not (version == 0)) (Mp4.unsupported_tfhd_version version)
      _ ←
          check (not (without_bits flags 196667 == 0))
            (Mp4.unsupported_tfhd_flags (without_bits flags 196667))
      _ ← check (has_flag flags Mp4.tfhd_base_data_offset) Mp4.base_data_offset_unsupported
      _ ← check (has_flag flags Mp4.tfhd_duration_is_empty) Mp4.duration_is_empty_unsupported
      _ ← check (track_id == 0) Mp4.zero_track_id
      (index, c1) ←
          read_description_index (has_flag flags Mp4.tfhd_sample_description_index) buf (header + 8)
      (duration, c2) ←
          read_if (has_flag flags Mp4.tfhd_default_duration) buf c1 0 Mp4.invalid_default_duration
      (size, c3) ← read_if (has_flag flags Mp4.tfhd_default_size) buf c2 0 Mp4.invalid_default_size
      (default_flags, c4) ← read_default_flags (has_flag flags Mp4.tfhd_default_flags) buf c3
      _ ← check (not (c4 == length buf)) Mp4.invalid_tfhd_body
      ok (record {
        track_id = track_id;
        sample_description_index = index;
        default_duration = duration;
        default_size = size;
        default_flags = default_flags;
      })

-- What the header of a `trun` says of its samples.
pub record TrunFields : Type 0 where
  pub default_duration : ℕ
  pub default_size : ℕ
  pub default_flags : ℕ
  pub first_flags : ℕ
  pub has_first_flags : Bool
  pub has_duration : Bool
  pub has_size : Bool
  pub has_flags : Bool
  pub has_offsets : Bool

unfoldable pub flags_of : TrunFields → Bool → ℕ
flags_of h first = if first && h.has_first_flags then h.first_flags else h.default_flags

-- The fields of the sample at the cursor; `first` is `index == 0`.
unfoldable pub read_sample : TrunFields → List ℕ → Bool → ℕ → Field Sample
unfolding read_if flags_of
read_sample h buf first cursor = do
  (duration, c1) ← read_if h.has_duration buf cursor h.default_duration Mp4.invalid_sample_duration
  (size, c2) ← read_if h.has_size buf c1 h.default_size Mp4.invalid_sample_size
  (flags, c3) ← read_if h.has_flags buf c2 (flags_of h first) Mp4.invalid_sample_flags
  (offset, c4) ← read_if h.has_offsets buf c3 0 Mp4.invalid_composition_offset
  ok (
    record {
      duration = duration;
      size = size;
      flags = flags;
      composition_time_offset_raw = offset;
    },
    c4,
  )

unfoldable pub push_sample : Run → Sample → Result Mp4Error Run
push_sample run s = do
  duration ← ok_or (checked_add run.duration s.duration) Mp4.trun_duration_overflow
  data_size ← ok_or (checked_add run.data_size s.size) Mp4.trun_size_overflow
  ok (record run { samples = run.samples ++ s ∷ []; duration = duration; data_size = data_size })

unfoldable pub read_samples : TrunFields → List ℕ → ℕ → Bool → ℕ → Run → Field Run
unfolding read_sample push_sample
read_samples h buf zero first cursor run = ok (run, cursor)
read_samples h buf (suc count) first cursor run = do
  (s, cursor') ← read_sample h buf first cursor
  run' ← push_sample run s
  read_samples h buf count false cursor' run'

unfoldable pub count_fields : TrunFields → ℕ
count_fields h =
    (if h.has_duration then 1 else 0)
    + (if h.has_size then 1 else 0)
    + (if h.has_flags then 1 else 0)
    + (if h.has_offsets then 1 else 0)

unfoldable pub first_flags_of : List Sample → ℕ
first_flags_of [] = 0
first_flags_of (s ∷ ss) = s.flags

unfoldable pub empty_run : ℕ → Option ℕ → Run
empty_run version offset = record {
  source_data_offset = offset;
  samples = [];
  version = version;
  has_composition_time_offsets = false;
  duration = 0;
  data_size = 0;
  payload_offset = 0;
  output_offset = 0;
  starts_with_sync = false;
  has_inferred_duration = false;
}

unfoldable pub read_data_offset : Bool → List ℕ → ℕ → Field (Option ℕ)
read_data_offset false buf cursor = ok (none, cursor)
read_data_offset true buf cursor = do
  (value, cursor') ← ok_or (read_u32 buf cursor) Mp4.invalid_data_offset
  ok (some value, cursor')

-- The part of `normalize_trun` once the header has been read.
unfoldable pub normalize_samples : TrunFields → List ℕ → ℕ → ℕ → Run → Bool → Result Mp4Error Run
unfolding check count_fields read_samples first_flags_of is_sync_sample
normalize_samples h buf sample_count cursor run duration_is_hint = do
  _ ← check (not h.has_duration && h.default_duration == 0) Mp4.no_duration
  _ ← check (not h.has_size && h.default_size == 0) Mp4.no_size
  _ ← check (ltb Mp4.max_trun_samples sample_count) (Mp4.too_many_samples sample_count)
  _ ← check (not (cursor + sample_count * count_fields h * 4 == length buf)) Mp4.invalid_trun_body
  (run', cursor') ← read_samples h buf sample_count true cursor run
  _ ←
      check (not (cursor' == length buf) || run'.duration == 0 || run'.data_size == 0)
        Mp4.invalid_trun_body
  ok (record run' {
    has_composition_time_offsets = h.has_offsets;
    starts_with_sync = is_sync_sample (first_flags_of run'.samples);
    has_inferred_duration = not h.has_duration && duration_is_hint;
  })

-- The known flags of a `trun` are the bits 0, 2, 8, 9, 10 and 11.
unfoldable pub normalize_trun : List ℕ → ℕ → ℕ → ℕ → ℕ → Bool → Result Mp4Error Run
unfolding check read_data_offset read_if normalize_samples empty_run
normalize_trun buf header default_duration default_size default_flags duration_is_hint =
    let version_flags = be32 (drop header buf) in
    let version = version_flags / 16777216 in
    let flags = version_flags % 16777216 in
    let sample_count = be32 (drop (header + 4) buf) in
    let has_first_flags = has_flag flags Mp4.trun_first_sample_flags in
    let has_flags = has_flag flags Mp4.trun_flags in
    do
      _ ← check (ltb (length buf) (header + 8)) Mp4.trun_too_small
      _ ← check (ltb 1 version) (Mp4.unsupported_trun_version version)
      _ ←
          check (not (without_bits flags 3845 == 0))
            (Mp4.unsupported_trun_flags (without_bits flags 3845))
      _ ← check (sample_count == 0) Mp4.no_samples
      (offset, c1) ← read_data_offset (has_flag flags Mp4.trun_data_offset) buf (header + 8)
      _ ← check (has_first_flags && has_flags) Mp4.both_flags
      (first_flags, c2) ← read_if has_first_flags buf c1 default_flags Mp4.invalid_first_flags
      normalize_samples
          (record {
            default_duration = default_duration;
            default_size = default_size;
            default_flags = default_flags;
            first_flags = first_flags;
            has_first_flags = has_first_flags;
            has_duration = has_flag flags Mp4.trun_duration;
            has_size = has_flag flags Mp4.trun_size;
            has_flags = has_flags;
            has_offsets = has_flag flags Mp4.trun_composition_offset;
          })
          buf sample_count c2 (empty_run version offset) duration_is_hint

-- The first loop of `parse_traf`: the `tfhd` and the decode time.
unfoldable pub read_heads :
    List BoxAt → Option Tfhd → Option ℕ → Result Mp4Error (Option Tfhd × Option ℕ)
unfolding parse_tfhd
read_heads [] tfhd decode_time = ok (tfhd, decode_time)
read_heads (b ∷ bs) tfhd decode_time =
    let after_tfhd : Result Mp4Error (Option Tfhd × Option ℕ) = elim tfhd [
      | some t ↦ err Mp4.duplicate_tfhd
      | none ↦ parse_tfhd b.bytes b.header >>= (λ t. read_heads bs (some t) decode_time)
    ] in
    let after_tfdt : Result Mp4Error (Option Tfhd × Option ℕ) = elim decode_time [
      | some t ↦ err Mp4.duplicate_tfdt
      | none ↦
          ok_or (read_tfdt b.bytes b.header) Mp4.invalid_tfdt >>= (λ t. read_heads bs tfhd (some t))
    ] in
    let skipped = read_heads bs tfhd decode_time in
    if b.kind == Mp4.tfhd_box
    then after_tfhd
    else if b.kind == Mp4.tfdt_box
    then after_tfdt
    else if b.kind == Mp4.trun_box
    then skipped
    else err (Mp4.unsupported_in_traf b.kind)

-- The track of a `tfhd`: its timescale, its defaults and the hint of the last duration.
unfoldable pub track_of : ℕ → TrackIds → TrackIds → ℕ → ℕ → Result Mp4Error (ℕ × Trex × ℕ)
track_of id video audio video_hint audio_hint =
    if id == video.id
    then ok (video.timescale, video.trex, video_hint)
    else if not (audio.id == 0) && id == audio.id
    then ok (audio.timescale, audio.trex, audio_hint)
    else err (Mp4.unsupported_track id)

-- The default duration, and whether it is the hint.
unfoldable pub default_duration_of : Tfhd → Trex → ℕ → ℕ × Bool
default_duration_of tfhd trex hint =
    if not (tfhd.default_duration == 0)
    then (tfhd.default_duration, false)
    else if not (trex.duration == 0)
    then (trex.duration, false)
    else (hint, not (hint == 0))

unfoldable pub default_of : Option ℕ → ℕ → ℕ
default_of none n = n
default_of (some m) n = m

-- The second loop: the runs.
unfoldable pub read_runs : List BoxAt → ℕ → ℕ → ℕ → Bool → Fragment → Result Mp4Error Fragment
unfolding normalize_trun
read_runs [] d s f hint fragment = ok fragment
read_runs (b ∷ bs) d s f hint fragment =
    let added = normalize_trun b.bytes b.header d s f hint >>= (λ run.
      ok_or (checked_add fragment.duration run.duration) Mp4.fragment_duration_overflow
      >>= (λ duration. read_runs bs d s f hint (record fragment {
        duration = duration;
        has_inferred_duration = fragment.has_inferred_duration || run.has_inferred_duration;
        runs = fragment.runs ++ run ∷ [];
      }))) in
    let skipped = read_runs bs d s f hint fragment in
    if b.kind == Mp4.trun_box then added else skipped

unfoldable pub first_sync : List Run → Bool
first_sync [] = false
first_sync (r ∷ rs) = r.starts_with_sync

unfoldable pub parse_traf : List ℕ → ℕ → TrackIds → TrackIds → ℕ → ℕ → Result Mp4Error Fragment
unfolding read_heads track_of default_duration_of default_of read_runs first_sync check
parse_traf traf traf_header video audio video_hint audio_hint = do
  (found_tfhd, found_time) ← read_heads (boxes traf traf_header) none none
  tfhd ← ok_or found_tfhd Mp4.no_tfhd_or_tfdt
  decode_time ← ok_or found_time Mp4.no_tfhd_or_tfdt
  (timescale, trex, hint) ← track_of tfhd.track_id video audio video_hint audio_hint
  _ ← check (timescale == 0) (Mp4.zero_timescale tfhd.track_id)
  _ ←
      check (default_of tfhd.sample_description_index trex.description_index == 0)
        (Mp4.no_description_index tfhd.track_id)
  fragment ←
      read_runs (boxes traf traf_header) (default_duration_of tfhd trex hint).0
        (if tfhd.default_size == 0 then trex.size else tfhd.default_size)
        (default_of tfhd.default_flags trex.flags) (default_duration_of tfhd trex hint).1
        (record {
          track_id = tfhd.track_id;
          timescale = timescale;
          decode_time = decode_time;
          duration = 0;
          starts_with_sync = false;
          sample_description_index =
              default_of tfhd.sample_description_index trex.description_index;
          tfhd =
              canonical_tfhd tfhd.track_id
                (default_of tfhd.sample_description_index trex.description_index);
          runs = [];
          payload_start = 0;
          payload_len = 0;
          has_inferred_duration = false;
        })
  _ ← check (length fragment.runs == 0 || fragment.duration == 0) Mp4.no_trun_or_duration
  ok (record fragment { starts_with_sync = first_sync fragment.runs })

-- The loop over the boxes of the `moof`.
unfoldable pub read_trafs :
    List BoxAt → TrackIds → TrackIds → ℕ → ℕ → Option Fragment → Result Mp4Error (Option Fragment)
unfolding parse_traf
read_trafs [] video audio video_hint audio_hint result = ok result
read_trafs (b ∷ bs) video audio video_hint audio_hint result =
    let parsed : Result Mp4Error (Option Fragment) = elim result [
      | some f ↦ err Mp4.many_trafs
      | none ↦
          parse_traf b.bytes b.header video audio video_hint audio_hint
          >>= (λ f. read_trafs bs video audio video_hint audio_hint (some f))
    ] in
    let skipped = read_trafs bs video audio video_hint audio_hint result in
    if b.kind == Mp4.traf_box then parsed else skipped

unfoldable pub parse_source_moof : List ℕ → TrackIds → TrackIds → ℕ → ℕ → Result Mp4Error Fragment
unfolding check read_trafs
parse_source_moof moof video audio video_hint audio_hint = do
  root ← ok_or (try_read_box moof 0) Mp4.not_one_moof
  _ ← check (not (root.kind == Mp4.moof_box) || not (root.end == length moof)) Mp4.not_one_moof
  result ← read_trafs (boxes root.bytes root.header) video audio video_hint audio_hint none
  ok_or result Mp4.no_traf
