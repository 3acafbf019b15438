-- ===== src/Gstreamer/Cue/Timeline.antt =====
-- `parse_timeline`: the cue times of the video track, and the segments between them.
pub mod Points
pub mod CueTimes
pub mod Laws
use rustorr.Base.{
  ℕ, ◌+◌, ◌*◌, ◌-◌, ◌/◌, ◌%◌, Bool, true, false, Option, none, some, List, [], ◌∷◌, ltb, leb, max,
  ◌==◌, ◌&&◌, ◌||◌, not, if◌then◌else◌, u64_mod, length, get_elem?,
}
use rustorr.Base.Options.{◌>>=◌}
use rustorr.Gstreamer.Cue.Element.{Element, end, unsigned, elements}
use rustorr.Gstreamer.Cue.Metadata.{unsigned_or_zero}
use rustorr.Gstreamer.Cue.{
  cue_point, cue_time, cue_track_positions, cue_track, cue_cluster_position, max_cue_points,
}

pub record CueSegment : Type 0 where
  pub start_ns : ℕ
  pub end_ns : ℕ

unfoldable pub duration_ns : CueSegment → ℕ
duration_ns s = (s.end_ns + u64_mod - s.start_ns) % u64_mod

pub record CueTimeline : Type 0 where
  pub segments : List CueSegment
  pub timestamp_scale_ns : ℕ
  pub max_duration_ns : ℕ

-- The track of a position, and whether it has a cluster.
unfoldable pub position_field : List ℕ → Element → ℕ × Bool → ℕ × Bool
position_field bytes e (track, has_cluster) =
    if e.id == cue_track
    then (unsigned_or_zero bytes e, has_cluster)
    else if e.id == cue_cluster_position
    then (track, elim (unsigned bytes e) [ none ↦ false | some n ↦ true ])
    else (track, has_cluster)

unfoldable pub position_fields : List ℕ → List Element → ℕ × Bool → ℕ × Bool
unfolding position_field
position_fields bytes [] found = found
position_fields bytes (e ∷ es) found = position_fields bytes es (position_field bytes e found)

unfoldable pub has_video_position : List ℕ → Element → ℕ → Bool
unfolding position_fields elements end
has_video_position bytes positions video_track =
    let (es, complete) = elements bytes positions.data_offset (end positions) in
    let (track, has_cluster) = position_fields bytes es (0, false) in
    complete && (track == video_track && has_cluster)

-- The last time of a cue point, and whether it has a position of the track.
unfoldable pub point_field : List ℕ → ℕ → Element → Option ℕ × Bool → Option ℕ × Bool
unfolding has_video_position
point_field bytes video_track e (time, has_position) =
    if e.id == cue_time
    then (unsigned bytes e, has_position)
    else if e.id == cue_track_positions && has_video_position bytes e video_track
    then (time, true)
    else (time, has_position)

unfoldable pub point_fields : List ℕ → ℕ → List Element → Option ℕ × Bool → Option ℕ × Bool
unfolding point_field
point_fields bytes video_track [] found = found
point_fields bytes video_track (e ∷ es) found =
    point_fields bytes video_track es (point_field bytes video_track e found)

unfoldable pub video_cue_time : List ℕ → Element → ℕ → Option ℕ
unfolding point_fields elements end
video_cue_time bytes point video_track =
    let (es, complete) = elements bytes point.data_offset (end point) in
    let (time, has_position) = point_fields bytes video_track es (none, false) in
    if complete && has_position then time else none

-- A time in nanoseconds, if it fits a `u64` and lies before the end.
unfoldable pub scaled : ℕ → ℕ → Option ℕ → Option ℕ
scaled scale duration none = none
scaled scale duration (some time) =
    if leb time ((u64_mod - 1) / scale) && ltb (time * scale) duration
    then some (time * scale)
    else none

unfoldable pub cue_times : List ℕ → ℕ → ℕ → ℕ → List Element → List ℕ
unfolding video_cue_time scaled
cue_times bytes video_track scale duration [] = []
cue_times bytes video_track scale duration (e ∷ es) =
    let rest = cue_times bytes video_track scale duration es in
    if e.id == cue_point
    then elim (scaled scale duration (video_cue_time bytes e video_track)) [
      | none ↦ rest
      | some time ↦ time ∷ rest
    ]
    else rest

-- `sort_unstable` of numbers
unfoldable pub insert_sorted : ℕ → List ℕ → List ℕ
insert_sorted n [] = n ∷ []
insert_sorted n (m ∷ ms) = let rest = insert_sorted n ms in if leb n m then n ∷ m ∷ ms else m ∷ rest

unfoldable pub sort : List ℕ → List ℕ
unfolding insert_sorted
sort [] = []
sort (n ∷ ns) = insert_sorted n (sort ns)

-- From `previous` over the times that are later, to the end of the file.
unfoldable pub segments_from : ℕ → ℕ → List ℕ → List CueSegment
segments_from duration previous [] =
    if ltb previous duration then record { start_ns = previous; end_ns = duration } ∷ [] else []
segments_from duration previous (current ∷ times) =
    let rest = segments_from duration (if leb current previous then previous else current) times in
    if leb current previous then rest else record { start_ns = previous; end_ns = current } ∷ rest

unfoldable pub max_duration : List CueSegment → ℕ
unfolding duration_ns
max_duration [] = 0
max_duration (s ∷ ss) = max (duration_ns s) (max_duration ss)

unfoldable pub timeline : ℕ → List CueSegment → Option CueTimeline
unfolding max_duration
timeline scale [] = none
timeline scale (s ∷ ss) = some (record {
  segments = s ∷ ss;
  timestamp_scale_ns = scale;
  max_duration_ns = max_duration (s ∷ ss);
})

unfoldable pub build_timeline : ℕ → ℕ → List ℕ → Option CueTimeline
unfolding sort segments_from timeline
build_timeline scale duration times = elim (sort times) [
  | [] ↦ none
  | previous ∷ later ↦ timeline scale (segments_from duration previous later)
]

unfoldable pub parse_timeline : List ℕ → Element → ℕ → ℕ → ℕ → Option CueTimeline
unfolding elements end cue_times build_timeline
parse_timeline bytes cues video_track scale duration =
    let (es, complete) = elements bytes cues.data_offset (end cues) in
    let times = cue_times bytes video_track scale duration es in
    if not complete || (ltb max_cue_points (length times) || ltb (length times) 2)
    then none
    else build_timeline scale duration times

-- `CueTimeline::segment`, at an index that is not negative.
unfoldable pub segment_at : CueTimeline → ℕ → Option CueSegment
segment_at t index = get_elem? t.segments index
