-- ===== src/Gstreamer/Cue/Source.antt =====
-- `read_timeline`: what is read of the source. `read_range` is an argument, as in the code; a length of
-- the content or of the film that is not positive is 0 here.
pub mod Ranges
use rustorr.Base.{
  ℕ, ◌+◌, ◌-◌, Bool, Option, none, some, List, [], ltb, ◌==◌, ◌&&◌, ◌||◌, not, if◌then◌else◌,
  i64_max, checked_add,
}
use rustorr.Base.Options.{◌>>=◌}
use rustorr.Gstreamer.Cue.Element.{Element, read_element_at}
use rustorr.Gstreamer.Cue.Metadata.{
  Metadata, Positions, position_of, parse_prefix, parse_timestamp_scale, video_track_number,
  find_segment,
}
use rustorr.Gstreamer.Cue.Timeline.{CueTimeline, parse_timeline}
use rustorr.Gstreamer.Cue.{
  info, tracks, cues, default_timestamp_scale_ns, prefix_length, max_metadata, max_cues,
}

-- The bytes of the source at an offset, of a length.
abbrev pub ReadRange : Type 0
ReadRange = ℕ → ℕ → Option (List ℕ)

-- The bytes of the header, at most 16, that the content has.
unfoldable pub header_length : ℕ → ℕ → ℕ
header_length content_length offset =
    if ltb 0 content_length && ltb (content_length - offset) 16 then content_length - offset else 16

-- The bytes of the element that a header announces.
unfoldable pub announced : ℕ → ℕ → ℕ → ℕ → Element → Option ℕ
announced offset expected max_length content_length e =
    let total = e.data_offset - e.offset + e.size in
    if not (e.id == expected) || (e.unknown_size || ltb max_length e.size)
    then none
    else if ltb (max_length + 16) total
    then none
    else if ltb 0 content_length
        && (ltb content_length offset || ltb (content_length - offset) total)
    then none
    else some total

unfoldable pub read_announced : ReadRange → ℕ → ℕ → ℕ → ℕ → List ℕ → Option (List ℕ)
unfolding announced
read_announced read_range offset expected max_length content_length header = do
  e ← read_element_at header 0
  total ← announced offset expected max_length content_length e
  read_range offset total

unfoldable pub read_element_from : ReadRange → ℕ → ℕ → ℕ → ℕ → Option (List ℕ)
unfolding header_length read_announced
read_element_from read_range offset expected max_length content_length =
    let n = header_length content_length offset in
    if ltb i64_max offset || n == 0
    then none
    else (read_range offset n
        >>= read_announced read_range offset expected max_length content_length)

unfoldable pub read_element : ReadRange → ℕ → ℕ → ℕ → ℕ → ℕ → Option (List ℕ)
unfolding read_element_from
read_element read_range segment_offset relative expected max_length content_length = do
  offset ← checked_add segment_offset relative
  read_element_from read_range offset expected max_length content_length

-- The element at the position that the seek head gives for it.
unfoldable pub element : ReadRange → ℕ → ℕ → Positions → ℕ → ℕ → Option (List ℕ)
unfolding read_element
element read_range content_length segment_data positions id max = do
  position ← position_of positions id
  read_element read_range segment_data position id max content_length

unfoldable pub with_tracks : Option (List ℕ) → ℕ → ℕ
with_tracks none video_track = video_track
with_tracks (some bytes) video_track = elim (read_element_at bytes 0) [
  | none ↦ video_track
  | some e ↦ video_track_number bytes e
]

unfoldable pub with_info : Option (List ℕ) → ℕ → ℕ
with_info none scale = scale
with_info (some bytes) scale = elim (read_element_at bytes 0) [
  | none ↦ scale
  | some e ↦ parse_timestamp_scale bytes e scale
]

-- The video track and the scale, with what the segment's own parts add.
unfoldable pub complete : ReadRange → ℕ → ℕ → Metadata → Metadata
unfolding element with_tracks with_info
complete read_range content_length segment_data m =
    let part = element read_range content_length segment_data m.positions in
    record {
      positions = m.positions;
      scale = with_info (part info max_metadata) m.scale;
      video_track =
          if m.video_track == 0
          then with_tracks (part tracks max_metadata) m.video_track
          else m.video_track;
    }

unfoldable pub read_cues : ReadRange → ℕ → ℕ → ℕ → Metadata → Option CueTimeline
unfolding element
read_cues read_range content_length segment_data duration m =
    if m.video_track == 0 || m.scale == 0 then none else do
      bytes ← element read_range content_length segment_data m.positions cues max_cues
      root ← read_element_at bytes 0
      parse_timeline bytes root m.video_track m.scale duration

-- The bytes that are read first.
unfoldable pub first_bytes : ℕ → ℕ
first_bytes content_length =
    if ltb 0 content_length && ltb content_length prefix_length
    then content_length
    else prefix_length

-- With the bytes of the file that hold its metadata.
unfoldable pub after_prefix : ReadRange → ℕ → ℕ → List ℕ → Option CueTimeline
unfolding complete read_cues
after_prefix read_range content_length duration prefix = do
  segment ← find_segment prefix
  let m =
      parse_prefix prefix segment.data_offset
        (record { positions = []; scale = default_timestamp_scale_ns; video_track = 0 })
  read_cues read_range content_length segment.data_offset duration
      (complete read_range content_length segment.data_offset m)

unfoldable pub read_timeline : ℕ → ℕ → ReadRange → Option CueTimeline
unfolding first_bytes after_prefix
read_timeline content_length duration read_range =
    if duration == 0
    then none
    else (read_range 0 (first_bytes content_length)
        >>= after_prefix read_range content_length duration)
