-- ===== src/Gstreamer/Cue/Source/Ranges.antt =====
-- What is read lies in the content.
use rustorr.Base.{
  ℕ, ◌+◌, ◌≤◌, ◌<◌, ◌≡◌, sym, ap, ◌∙◌, false, Option, none, some, List, [], ltb, ◌==◌, ◌||◌,
  if◌then◌else◌, i64_max, checked_add, arith, Bool-cases, inl, inr,
}
use rustorr.Base.Options.{◌>>=◌, >>=-cong}
use rustorr.Gstreamer.Cue.Element.{Element, read_element_at}
use rustorr.Gstreamer.Cue.Metadata.{Metadata, Positions, position_of, parse_prefix, find_segment}
use rustorr.Gstreamer.Cue.Timeline.{parse_timeline}
use rustorr.Gstreamer.Cue.{
  info, tracks, cues, default_timestamp_scale_ns, prefix_length, max_metadata, max_cues,
}
use rustorr.Gstreamer.Cue.Source.{
  ReadRange, header_length, announced, read_announced, read_element_from, read_element, element,
  with_tracks, with_info, complete, read_cues, first_bytes, after_prefix, read_timeline,
}

-- The same bytes inside of the content, for lengths that are not above a bound.
abbrev pub AgreeInside : ℕ → ℕ → ReadRange → ReadRange → Type 0
AgreeInside content_length bound r r' =
    (offset n : ℕ) → offset + n ≤ content_length → n ≤ bound → r offset n ≡ r' offset n

announced-inside :
    (offset expected max_length content_length total : ℕ) (e : Element)
    → 0 < content_length
    → announced offset expected max_length content_length e ≡ some total
    → (offset + total ≤ content_length) × (total ≤ max_length + 16)
unfolding announced
announced-inside offset expected max_length content_length total e h r = ground (arith, r, h)

header_length-inside :
    (content_length offset : ℕ)
    → 0 < content_length
    → (header_length content_length offset == 0) ≡ false
    → offset + header_length content_length offset ≤ content_length
unfolding header_length
header_length-inside content_length offset h p = ground (arith, h, p)

header_length_le : (content_length offset : ℕ) → header_length content_length offset ≤ 16
unfolding header_length
header_length_le content_length offset = ground arith

module _ (r r' : ReadRange) (content_length bound : ℕ) (h : 0 < content_length)
    (same : AgreeInside content_length bound r r') where
  read_announced-inside :
      (offset expected max_length : ℕ) (header : List ℕ)
      → max_length + 16 ≤ bound
      → read_announced r offset expected max_length content_length header
        ≡ read_announced r' offset expected max_length content_length header
  unfolding read_announced
  read_announced-inside offset expected max_length header b =
      >>=-cong (read_element_at header 0) _ _ λ e read.
        >>=-cong (announced offset expected max_length content_length e) _ _ λ total t.
          let v = announced-inside offset expected max_length content_length total e h t in
          same offset total v.0 (omega (arith, v.1, b))

  read_element_from-inside :
      (offset expected max_length : ℕ)
      → max_length + 16 ≤ bound
      → read_element_from r offset expected max_length content_length
        ≡ read_element_from r' offset expected max_length content_length
  unfolding read_element_from
  read_element_from-inside offset expected max_length b =
      let n = header_length content_length offset in
      let short = header_length_le content_length offset in
      let header_of : ReadRange → Option (List ℕ) =
        λ s. s offset n >>= read_announced s offset expected max_length content_length in
      elim (Bool-cases (ltb i64_max offset || n == 0)) [
        | inl out ↦
            ap (λ t. if t then none else header_of r) out
            ∙ sym (ap (λ t. if t then none else header_of r') out)
        | inr in_content ↦
            let inside =
              header_length-inside content_length offset h (ground (arith, in_content)) in
            ap (λ t. if t then none else header_of r) in_content
            ∙ ap (λ o. o >>= read_announced r offset expected max_length content_length)
                (same offset n inside (omega (arith, short, b)))
            ∙ >>=-cong (r' offset n) _ _
                (λ header read. read_announced-inside offset expected max_length header b)
            ∙ sym (ap (λ t. if t then none else header_of r') in_content)
      ]

  element-inside :
      (segment_data : ℕ) (positions : Positions) (id max_length : ℕ)
      → max_length + 16 ≤ bound
      → element r content_length segment_data positions id max_length
        ≡ element r' content_length segment_data positions id max_length
  unfolding element read_element
  element-inside segment_data positions id max_length b =
      >>=-cong (position_of positions id) _ _ λ position found.
        >>=-cong (checked_add segment_data position) _ _
          λ offset sum. read_element_from-inside offset id max_length b

  complete-inside :
      (segment_data : ℕ) (m : Metadata)
      → max_metadata + 16 ≤ bound
      → complete r content_length segment_data m ≡ complete r' content_length segment_data m
  unfolding complete
  complete-inside segment_data m b =
      let part = λ (s : ReadRange) (id : ℕ).
        element s content_length segment_data m.positions id max_metadata in
      let with_parts : Option (List ℕ) → Option (List ℕ) → Metadata = λ i t. record {
        positions = m.positions;
        scale = with_info i m.scale;
        video_track = if m.video_track == 0 then with_tracks t m.video_track else m.video_track;
      } in
      ap (λ i. with_parts i (part r tracks))
        (element-inside segment_data m.positions info max_metadata b)
      ∙ ap (λ t. with_parts (part r' info) t)
          (element-inside segment_data m.positions tracks max_metadata b)

  read_cues-inside :
      (segment_data duration : ℕ) (m : Metadata)
      → max_cues + 16 ≤ bound
      → read_cues r content_length segment_data duration m
        ≡ read_cues r' content_length segment_data duration m
  unfolding read_cues
  read_cues-inside segment_data duration m b =
      ap
        (λ o.
          if m.video_track == 0 || m.scale == 0
          then none
          else (o >>= λ bytes. read_element_at bytes 0 >>= λ root.
              parse_timeline bytes root m.video_track m.scale duration))
        (element-inside segment_data m.positions cues max_cues b)

first_bytes-inside :
    (content_length : ℕ)
    → 0 < content_length
    → (first_bytes content_length ≤ content_length) × (first_bytes content_length ≤ prefix_length)
unfolding first_bytes
first_bytes-inside content_length h = ground (arith, h)

after_prefix-inside :
    (r r' : ReadRange) (content_length duration : ℕ)
    → 0 < content_length
    → AgreeInside content_length (max_cues + 16) r r'
    → (prefix : List ℕ)
    → after_prefix r content_length duration prefix ≡ after_prefix r' content_length duration prefix
unfolding after_prefix
after_prefix-inside r r' content_length duration h same prefix =
    >>=-cong (find_segment prefix) _ _ λ segment found.
      let at = segment.data_offset in
      let m =
        parse_prefix prefix at
          (record { positions = []; scale = default_timestamp_scale_ns; video_track = 0 }) in
      let bound = max_cues + 16 in
      ap (read_cues r content_length at duration)
        (complete-inside r r' content_length bound h same at m (omega arith))
      ∙ read_cues-inside r r' content_length bound h same at duration
          (complete r' content_length at m) (omega arith)

-- When the length of the content is known, a timeline depends only on bytes inside of the content, read
-- in pieces of at most 64 MiB and 16 bytes.
pub read_timeline-inside :
    (r r' : ReadRange) (content_length duration : ℕ)
    → 0 < content_length
    → AgreeInside content_length (max_cues + 16) r r'
    → read_timeline content_length duration r ≡ read_timeline content_length duration r'
unfolding read_timeline
read_timeline-inside r r' content_length duration h same =
    let near = first_bytes-inside content_length h in
    let start =
      same 0 (first_bytes content_length) (omega (arith, near.0)) (omega (arith, near.1)) in
    ap (λ o. if duration == 0 then none else (o >>= after_prefix r content_length duration)) start
    ∙ ap (λ o. if duration == 0 then none else o)
        (>>=-cong (r' 0 (first_bytes content_length)) _ _
          λ prefix read. after_prefix-inside r r' content_length duration h same prefix)
