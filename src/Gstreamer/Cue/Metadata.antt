-- ===== src/Gstreamer/Cue/Metadata.antt =====
-- What comes before the clusters: where the parts of the segment are, the time scale, the video track.
use rustorr.Base.{
  ℕ, Bool, Option, none, some, List, [], ◌∷◌, ◌++◌, ltb, leb, ◌==◌, ◌&&◌, ◌||◌, not, if◌then◌else◌,
  length,
}
use rustorr.Base.Options.{◌>>=◌}
use rustorr.Gstreamer.Cue.Element.{Element, end, read_element_at, unsigned, elements, children}
use rustorr.Gstreamer.Cue.{
  ebml, segment, seek_head, seek, seek_entry, seek_position, info, timestamp_scale, tracks,
  track_entry, track_number, track_type,
}

-- A target's identifier and its position in the segment.
abbrev pub Positions : Type 0
Positions = List (ℕ × ℕ)

unfoldable pub position_of : Positions → ℕ → Option ℕ
position_of [] id = none
position_of ((target, position) ∷ ps) id =
    let rest = position_of ps id in if target == id then some position else rest

-- The first entry for a target wins.
unfoldable pub insert_position : Positions → ℕ → ℕ → Positions
unfolding position_of
insert_position ps id position = elim (position_of ps id) [
  | some p ↦ ps
  | none ↦ ps ++ (id, position) ∷ []
]

-- `unsigned(..).unwrap_or(0)`
unfoldable pub unsigned_or_zero : List ℕ → Element → ℕ
unsigned_or_zero bytes e = elim (unsigned bytes e) [ none ↦ 0 | some n ↦ n ]

abbrev pub sized_within : ℕ → Element → Bool
sized_within n e = ltb 0 e.size && leb e.size n

-- The target and the position of a seek entry.
unfoldable pub seek_field : List ℕ → Element → ℕ × Option ℕ → ℕ × Option ℕ
unfolding unsigned_or_zero
seek_field bytes e (target, position) =
    if e.id == seek_entry && sized_within 4 e
    then (unsigned_or_zero bytes e, position)
    else if e.id == seek_position && sized_within 8 e
    then (target, some (unsigned_or_zero bytes e))
    else (target, position)

unfoldable pub seek_fields : List ℕ → List Element → ℕ × Option ℕ → ℕ × Option ℕ
unfolding seek_field
seek_fields bytes [] found = found
seek_fields bytes (e ∷ es) found = seek_fields bytes es (seek_field bytes e found)

unfoldable pub insert_seek : ℕ × Option ℕ → Positions → Positions
unfolding insert_position
insert_seek (target, none) ps = ps
insert_seek (target, some position) ps =
    if target == 0 then ps else insert_position ps target position

unfoldable pub seek_entries : List ℕ → List Element → Positions → Positions
unfolding seek_fields insert_seek children
seek_entries bytes [] ps = ps
seek_entries bytes (e ∷ es) ps =
    seek_entries bytes es
      (if e.id == seek then insert_seek (seek_fields bytes (children bytes e) (0, none)) ps else ps)

unfoldable pub parse_seek_head : List ℕ → Element → Positions → Positions
unfolding seek_entries
parse_seek_head bytes parent ps = seek_entries bytes (children bytes parent) ps

unfoldable pub positive_or : Option ℕ → ℕ → ℕ
positive_or none scale = scale
positive_or (some n) scale = if ltb 0 n then n else scale

-- The first scale of a size that fits decides.
unfoldable pub scale_of : List ℕ → List Element → ℕ → ℕ
unfolding positive_or
scale_of bytes [] scale = scale
scale_of bytes (e ∷ es) scale =
    let rest = scale_of bytes es scale in
    if e.id == timestamp_scale && sized_within 8 e
    then positive_or (unsigned bytes e) scale
    else rest

unfoldable pub parse_timestamp_scale : List ℕ → Element → ℕ → ℕ
unfolding scale_of
parse_timestamp_scale bytes parent scale = scale_of bytes (children bytes parent) scale

-- The number and the kind of a track.
unfoldable pub track_field : List ℕ → Element → ℕ × ℕ → ℕ × ℕ
unfolding unsigned_or_zero
track_field bytes e (number, kind) =
    if e.id == track_number
    then (unsigned_or_zero bytes e, kind)
    else if e.id == track_type
    then (number, unsigned_or_zero bytes e)
    else (number, kind)

unfoldable pub track_fields : List ℕ → List Element → ℕ × ℕ → ℕ × ℕ
unfolding track_field
track_fields bytes [] found = found
track_fields bytes (e ∷ es) found = track_fields bytes es (track_field bytes e found)

unfoldable pub video_track_of : List ℕ → List Element → ℕ
unfolding track_fields children
video_track_of bytes [] = 0
video_track_of bytes (e ∷ es) =
    let rest = video_track_of bytes es in
    let (number, kind) = track_fields bytes (children bytes e) (0, 0) in
    if e.id == track_entry && (kind == 1 && ltb 0 number) then number else rest

unfoldable pub video_track_number : List ℕ → Element → ℕ
unfolding video_track_of
video_track_number bytes parent = video_track_of bytes (children bytes parent)

-- What is known of the file before its cues are read.
pub record Metadata : Type 0 where
  pub positions : Positions
  pub scale : ℕ
  pub video_track : ℕ

unfoldable pub parse_part : List ℕ → Element → Metadata → Metadata
unfolding parse_seek_head parse_timestamp_scale video_track_number
parse_part bytes e m =
    if e.id == seek_head
    then record m { positions = parse_seek_head bytes e m.positions }
    else if e.id == info
    then record m { scale = parse_timestamp_scale bytes e m.scale }
    else if e.id == tracks
    then record m { video_track = video_track_number bytes e }
    else m

unfoldable pub parse_parts : List ℕ → List Element → Metadata → Metadata
unfolding parse_part
parse_parts bytes [] m = m
parse_parts bytes (e ∷ es) m = parse_parts bytes es (parse_part bytes e m)

unfoldable pub parse_prefix : List ℕ → ℕ → Metadata → Metadata
unfolding parse_parts elements
parse_prefix bytes offset m = parse_parts bytes (elements bytes offset (length bytes)).0 m

unfoldable pub find_segment : List ℕ → Option Element
unfolding end
find_segment bytes = do
  e ← read_element_at bytes 0
  if not (e.id == ebml) || (e.unknown_size || ltb (length bytes) (end e))
      then none
      else do s ← read_element_at bytes (end e); if s.id == segment then some s else none
