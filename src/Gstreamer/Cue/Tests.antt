-- ===== src/Gstreamer/Cue/Tests.antt =====
-- A Matroska file of three cue points, two seconds apart, and its timeline.
use rustorr.Gstreamer.Cue.Metadata.{find_segment, parse_prefix, unsigned_or_zero}
use rustorr.Base.{
  ℕ, ◌+◌, ◌≡◌, ap, refl, true, false, Option, none, some, List, [], ◌∷◌, leb, if◌then◌else◌, length,
  arith,
}
use rustorr.Gstreamer.Cue.Element.{Element, end, slice, read_element_at, elements, walk, unsigned}
use rustorr.Gstreamer.Cue.Element.Bounds.{AreBytes}
use rustorr.Gstreamer.Cue.Element.Walk.{IsTiling, elements_enough, elements-IsTiling}
use rustorr.Gstreamer.Cue.Timeline.{CueTimeline, parse_timeline, cue_times}
use rustorr.Gstreamer.Cue.Timeline.Points.{children}
use rustorr.Gstreamer.Cue.Timeline.Laws.{
  IsTimeline, times_of, parse_timeline-IsTimeline, parse_timeline-some,
}
use rustorr.Gstreamer.Cue.Source.{ReadRange, read_timeline}
use rustorr.Gstreamer.Cue.Source.Ranges.{read_timeline-inside}

abbrev movie : List ℕ
movie =
    26 ∷ 69 ∷ 223 ∷ 163 ∷ 139 ∷ 66 ∷ 130 ∷ 136 ∷ 109 ∷ 97 ∷ 116 ∷ 114 ∷ 111 ∷ 115 ∷ 107 ∷ 97 ∷ 24
    ∷ 83 ∷ 128 ∷ 103 ∷ 64 ∷ 128 ∷ 17 ∷ 77 ∷ 155 ∷ 116 ∷ 179 ∷ 77 ∷ 187 ∷ 142 ∷ 83 ∷ 171 ∷ 132 ∷ 21
    ∷ 73 ∷ 169 ∷ 102 ∷ 83 ∷ 172 ∷ 132 ∷ 0 ∷ 0 ∷ 0 ∷ 56 ∷ 77 ∷ 187 ∷ 142 ∷ 83 ∷ 171 ∷ 132 ∷ 22 ∷ 84
    ∷ 174 ∷ 107 ∷ 83 ∷ 172 ∷ 132 ∷ 0 ∷ 0 ∷ 0 ∷ 68 ∷ 77 ∷ 187 ∷ 142 ∷ 83 ∷ 171 ∷ 132 ∷ 28 ∷ 83 ∷ 187
    ∷ 107 ∷ 83 ∷ 172 ∷ 132 ∷ 0 ∷ 0 ∷ 0 ∷ 81 ∷ 21 ∷ 73 ∷ 169 ∷ 102 ∷ 135 ∷ 42 ∷ 215 ∷ 177 ∷ 131 ∷ 15
    ∷ 66 ∷ 64 ∷ 22 ∷ 84 ∷ 174 ∷ 107 ∷ 136 ∷ 174 ∷ 134 ∷ 215 ∷ 129 ∷ 1 ∷ 131 ∷ 129 ∷ 1 ∷ 28 ∷ 83
    ∷ 187 ∷ 107 ∷ 170 ∷ 187 ∷ 140 ∷ 179 ∷ 130 ∷ 0 ∷ 0 ∷ 183 ∷ 134 ∷ 247 ∷ 129 ∷ 1 ∷ 241 ∷ 129 ∷ 7
    ∷ 187 ∷ 140 ∷ 179 ∷ 130 ∷ 7 ∷ 208 ∷ 183 ∷ 134 ∷ 247 ∷ 129 ∷ 1 ∷ 241 ∷ 129 ∷ 7 ∷ 187 ∷ 140 ∷ 179
    ∷ 130 ∷ 15 ∷ 160 ∷ 183 ∷ 134 ∷ 247 ∷ 129 ∷ 1 ∷ 241 ∷ 129 ∷ 7 ∷ []

abbrev cues_bytes : List ℕ
cues_bytes =
    28 ∷ 83 ∷ 187 ∷ 107 ∷ 170 ∷ 187 ∷ 140 ∷ 179 ∷ 130 ∷ 0 ∷ 0 ∷ 183 ∷ 134 ∷ 247 ∷ 129 ∷ 1 ∷ 241
    ∷ 129 ∷ 7 ∷ 187 ∷ 140 ∷ 179 ∷ 130 ∷ 7 ∷ 208 ∷ 183 ∷ 134 ∷ 247 ∷ 129 ∷ 1 ∷ 241 ∷ 129 ∷ 7 ∷ 187
    ∷ 140 ∷ 179 ∷ 130 ∷ 15 ∷ 160 ∷ 183 ∷ 134 ∷ 247 ∷ 129 ∷ 1 ∷ 241 ∷ 129 ∷ 7 ∷ []

abbrev cues_root : Element
cues_root = record { id = 0x1C53BB6B; offset = 0; data_offset = 5; size = 42; unknown_size = false }

abbrev found : CueTimeline
found = record {
  segments =
      record { start_ns = 0; end_ns = 2000000000 }
      ∷ record { start_ns = 2000000000; end_ns = 4000000000 }
      ∷ record { start_ns = 4000000000; end_ns = 5000000000 }
      ∷ [];
  timestamp_scale_ns = 1000000;
  max_duration_ns = 2000000000;
}

-- Past the end of the file there is nothing, or there are no bytes.
abbrev of_file : Option (List ℕ) → List ℕ → ReadRange
of_file past file offset n =
    if leb (offset + n) (length file) then some (slice file offset n) else past

reads_root : read_element_at cues_bytes 0 ≡ some cues_root
unfolding read_element_at
reads_root = refl

reads_movie : read_timeline 150 5000000000 (of_file none movie) ≡ some found
unfolding read_timeline find_segment read_element_at parse_prefix unsigned parse_timeline
reads_movie = refl

parse_timeline_movie : parse_timeline cues_bytes cues_root 1 1000000 5000000000 ≡ some found
unfolding parse_timeline read_element_at unsigned_or_zero unsigned
parse_timeline_movie = refl

cues_bytes-AreBytes : AreBytes cues_bytes
cues_bytes-AreBytes = ground arith

parse_timeline-IsTimeline_example :
    IsTimeline cues_bytes (children cues_bytes cues_root) 1 1000000 5000000000 found
parse_timeline-IsTimeline_example =
    parse_timeline-IsTimeline cues_bytes cues_root 1 1000000 5000000000 found (omega arith)
      (omega arith) parse_timeline_movie

reads_all : (elements cues_bytes cues_root.data_offset (end cues_root)).1 ≡ true
unfolding elements read_element_at
reads_all = refl

three_times : times_of cues_bytes cues_root 1 1000000 5000000000 ≡ 0 ∷ 2000000000 ∷ 4000000000 ∷ []
unfolding cue_times read_element_at unsigned_or_zero unsigned
three_times = refl

parse_timeline-some_example :
    (t : CueTimeline) × (parse_timeline cues_bytes cues_root 1 1000000 5000000000 ≡ some t)
parse_timeline-some_example =
    parse_timeline-some cues_bytes cues_root 1 1000000 5000000000 reads_all
      (omega (arith, ap length three_times)) (omega (arith, ap length three_times))

elements_enough_example : walk (length cues_bytes + 7) cues_bytes 5 47 ≡ elements cues_bytes 5 47
elements_enough_example = elements_enough cues_bytes 5 47 7 cues_bytes-AreBytes (omega arith)

elements-IsTiling_example : IsTiling 5 47 (elements cues_bytes 5 47).0
unfolding elements read_element_at
elements-IsTiling_example =
    elements-IsTiling cues_bytes 5 47 cues_bytes-AreBytes (omega arith) (omega arith) refl

read_timeline-inside_example :
    read_timeline 150 5000000000 (of_file none movie)
    ≡ read_timeline 150 5000000000 (of_file (some []) movie)
read_timeline-inside_example =
    read_timeline-inside (of_file none movie) (of_file (some []) movie) 150 5000000000 (omega arith)
      (λ offset n inside short. ground (arith, inside))
