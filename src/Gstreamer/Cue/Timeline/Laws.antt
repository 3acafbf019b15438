-- ===== src/Gstreamer/Cue/Timeline/Laws.antt =====
-- The segments of a timeline lie end to end, and start at the cue times.
use rustorr.Base.{
  ℕ, suc, ◌-◌, ◌≤◌, ◌<◌, ◌≡◌, ◌↔◌, refl, sym, ap, ◌∙◌, Bool, true, false, none, some, List, [], ◌∷◌,
  ◌==◌, ◌||◌, u64_mod, length, arith, subst,
}
use rustorr.Gstreamer.Cue.Element.{Element, end, elements}
use rustorr.Gstreamer.Cue.{max_cue_points}
use rustorr.Gstreamer.Cue.Timeline.CueTimes.{has, IsCueTime, has-cue_times}
use rustorr.Gstreamer.Cue.Timeline.Points.{children}
use rustorr.Gstreamer.Cue.Timeline.{
  CueSegment, CueTimeline, duration_ns, cue_times, scaled, insert_sorted, sort, segments_from,
  max_duration, timeline, build_timeline, parse_timeline,
}

-- From one time to another without a gap, and no segment is empty.
abbrev pub IsChain : ℕ → ℕ → List CueSegment → Type 0
IsChain start stop [] = start ≡ stop
IsChain start stop (s ∷ ss) =
    (s.start_ns ≡ start) × (s.start_ns < s.end_ns) × IsChain s.end_ns stop ss

abbrev pub AllBelow : ℕ → List ℕ → Type 0
AllBelow m [] = Unit
AllBelow m (n ∷ ns) = (n < m) × AllBelow m ns

abbrev pub Sorted : ℕ → List ℕ → Type 0
Sorted b [] = Unit
Sorted b (n ∷ ns) = (b ≤ n) × Sorted n ns

-- No segment is longer.
abbrev pub AllWithin : ℕ → List CueSegment → Type 0
AllWithin m [] = Unit
AllWithin m (s ∷ ss) = (s.end_ns - s.start_ns ≤ m) × AllWithin m ss

abbrev pub has_start : ℕ → List CueSegment → Bool
has_start n [] = false
has_start n (s ∷ ss) = s.start_ns == n || has_start n ss

has-insert_sorted : (n m : ℕ) (ms : List ℕ) → has n (insert_sorted m ms) ≡ (m == n || has n ms)
unfolding insert_sorted
has-insert_sorted n m [] = refl
has-insert_sorted n m (k ∷ ms) = ground (arith, has-insert_sorted n m ms)

has-sort : (n : ℕ) (ms : List ℕ) → has n (sort ms) ≡ has n ms
unfolding sort
has-sort n [] = refl
has-sort n (m ∷ ms) = ground (arith, has-insert_sorted n m (sort ms), has-sort n ms)

insert_sorted-AllBelow :
    (b n : ℕ) (ms : List ℕ) → n < b → AllBelow b ms → AllBelow b (insert_sorted n ms)
unfolding insert_sorted
insert_sorted-AllBelow b n [] h a = (h, tt)
insert_sorted-AllBelow b n (m ∷ ms) h a = ground (arith, a, insert_sorted-AllBelow b n ms h a.1)

sort-AllBelow : (b : ℕ) (ms : List ℕ) → AllBelow b ms → AllBelow b (sort ms)
unfolding sort
sort-AllBelow b [] a = tt
sort-AllBelow b (m ∷ ms) a = insert_sorted-AllBelow b m (sort ms) a.0 (sort-AllBelow b ms a.1)

insert_sorted-Sorted : (b n : ℕ) (ms : List ℕ) → b ≤ n → Sorted b ms → Sorted b (insert_sorted n ms)
unfolding insert_sorted
insert_sorted-Sorted b n [] h s = (h, tt)
insert_sorted-Sorted b n (m ∷ ms) h s = ground (arith, s, insert_sorted-Sorted m n ms)

sort-Sorted : (ms : List ℕ) → Sorted 0 (sort ms)
unfolding sort
sort-Sorted [] = tt
sort-Sorted (m ∷ ms) = insert_sorted-Sorted 0 m (sort ms) (omega arith) (sort-Sorted ms)

segments_from-IsChain :
    (stop p : ℕ) (times : List ℕ)
    → p < stop
    → AllBelow stop times
    → IsChain p stop (segments_from stop p times)
unfolding segments_from
segments_from-IsChain stop p [] h a = ground arith
segments_from-IsChain stop p (n ∷ ns) h a =
    ground
      (arith, a, segments_from-IsChain stop p ns h a.1, segments_from-IsChain stop n ns a.0 a.1)

segments_from-has_start :
    (stop p n : ℕ) (times : List ℕ)
    → p < stop
    → Sorted p times
    → AllBelow stop times
    → has_start n (segments_from stop p times) ≡ (p == n || has n times)
unfolding segments_from
segments_from-has_start stop p n [] h s a = ground arith
segments_from-has_start stop p n (m ∷ ms) h s a = ground (
  arith,
  s,
  a,
  segments_from-has_start stop m n ms a.0 s.1 a.1,
  segments_from-has_start stop p n ms,
)

max_duration-AllWithin :
    (start stop m : ℕ) (ss : List CueSegment)
    → stop < u64_mod
    → IsChain start stop ss
    → max_duration ss ≤ m
    → (start ≤ stop) × AllWithin m ss
unfolding max_duration duration_ns
max_duration-AllWithin start stop m [] h c k = (omega (arith, c), tt)
max_duration-AllWithin start stop m (s ∷ ss) h c k =
    let rest = max_duration-AllWithin s.end_ns stop m ss h c.2 (omega arith) in
    (omega (arith, c.0, c.1, rest.0), (omega (arith, c.0, c.1, rest.0), rest.1))

cue_times-AllBelow :
    (bytes : List ℕ) (video_track scale duration : ℕ) (es : List Element)
    → AllBelow duration (cue_times bytes video_track scale duration es)
unfolding cue_times scaled
cue_times-AllBelow bytes video_track scale duration [] = tt
cue_times-AllBelow bytes video_track scale duration (e ∷ es) =
    ground (arith, cue_times-AllBelow bytes video_track scale duration es)

-- What `parse_timeline` makes of its times.
timeline-fields :
    (scale : ℕ) (ss : List CueSegment) (t : CueTimeline)
    → timeline scale ss ≡ some t
    → (t.segments ≡ ss) × (t.max_duration_ns ≡ max_duration ss)
unfolding timeline
timeline-fields scale [] t e = ground arith
timeline-fields scale (s ∷ ss) t e = ground (arith, e)

-- Segments end to end up to the end, which start at each of the times and at no other.
record IsChained (duration : ℕ) (times : List ℕ) (t : CueTimeline) : Type 0 where
  first : ℕ
  chain : IsChain first duration t.segments
  within : AllWithin t.max_duration_ns t.segments
  starts : (n : ℕ) → has_start n t.segments ≡ has n times

times-IsChained :
    (scale duration : ℕ) (times : List ℕ) (t : CueTimeline)
    → duration < u64_mod
    → AllBelow duration times
    → Sorted 0 times
    → elim times [ [] ↦ none | p ∷ later ↦ timeline scale (segments_from duration p later) ]
      ≡ some t
    → IsChained duration times t
times-IsChained scale duration [] t h a s e = ground (arith, e)
times-IsChained scale duration (p ∷ later) t h a s e =
    let f = timeline-fields scale (segments_from duration p later) t e in
    let chain = segments_from-IsChain duration p later a.0 a.1 in
    let longest = max_duration (segments_from duration p later) in
    record {
      first = p;
      chain = subst (IsChain p duration) (sym f.0) chain;
      within =
          subst (λ m. AllWithin m t.segments) (sym f.1)
            (subst (AllWithin longest) (sym f.0)
              (max_duration-AllWithin p duration longest (segments_from duration p later) h chain
                (omega arith)).1);
      starts = λ n. ap (has_start n) f.0 ∙ segments_from-has_start duration p n later a.0 s.1 a.1;
    }

build_timeline-IsChained :
    (scale duration : ℕ) (times : List ℕ) (t : CueTimeline)
    → duration < u64_mod
    → AllBelow duration times
    → build_timeline scale duration times ≡ some t
    → IsChained duration times t
unfolding build_timeline
build_timeline-IsChained scale duration times t h a e =
    let v =
      times-IsChained scale duration (sort times) t h (sort-AllBelow duration times a)
        (sort-Sorted times) e in
    record {
      first = v.first;
      chain = v.chain;
      within = v.within;
      starts = λ n. v.starts n ∙ has-sort n times;
    }

-- The cue times of the video track that lie before the end of the film.
abbrev pub times_of : List ℕ → Element → ℕ → ℕ → ℕ → List ℕ
times_of bytes cues video_track scale duration =
    cue_times bytes video_track scale duration (elements bytes cues.data_offset (end cues)).0

-- The timeline of the cue points `es`: a chain of segments up to the end of the film, none of them
-- empty or longer than the maximum; a segment starts at a number exactly if it is a cue time.
pub record IsTimeline (bytes : List ℕ) (es : List Element) (video_track scale duration : ℕ)
    (t : CueTimeline) : Type 0 where
  pub first : ℕ
  pub chain : IsChain first duration t.segments
  pub within : AllWithin t.max_duration_ns t.segments
  pub starts :
      (n : ℕ) → (has_start n t.segments ≡ true) ↔ IsCueTime bytes es video_track scale duration n

-- When the scale is not 0 and the duration fits a word, the segments of a timeline lie end to end up to
-- the end of the film, and none of them is empty or longer than the maximum. One starts at a number
-- exactly if it is the time, in nanoseconds and before the end, of a cue point that can be read and has
-- positions of the video track with a cluster.
pub parse_timeline-IsTimeline :
    (bytes : List ℕ) (cues : Element) (video_track scale duration : ℕ) (t : CueTimeline)
    → 0 < scale
    → duration < u64_mod
    → parse_timeline bytes cues video_track scale duration ≡ some t
    → IsTimeline bytes (children bytes cues) video_track scale duration t
unfolding parse_timeline
parse_timeline-IsTimeline bytes cues video_track scale duration t k h e =
    let es = children bytes cues in
    let v =
      build_timeline-IsChained scale duration (cue_times bytes video_track scale duration es) t h
        (cue_times-AllBelow bytes video_track scale duration es) (ground (arith, e)) in
    record {
      first = v.first;
      chain = v.chain;
      within = v.within;
      starts = λ n.
          subst (λ b. (b ≡ true) ↔ IsCueTime bytes es video_track scale duration n)
            (sym (v.starts n)) (has-cue_times bytes video_track scale duration es n k h);
    }

insert_sorted-length : (n : ℕ) (ms : List ℕ) → length (insert_sorted n ms) ≡ suc (length ms)
unfolding insert_sorted
insert_sorted-length n [] = refl
insert_sorted-length n (m ∷ ms) = ground (arith, insert_sorted-length n ms)

timeline-some :
    (scale start stop : ℕ) (ss : List CueSegment)
    → start < stop
    → IsChain start stop ss
    → (t : CueTimeline) × (timeline scale ss ≡ some t)
unfolding timeline
timeline-some scale start stop [] h c = ground (arith, c)
timeline-some scale start stop (s ∷ ss) h c = (_, refl)

chained_some :
    (scale duration : ℕ) (times : List ℕ)
    → AllBelow duration times
    → 0 < length times
    → (t : CueTimeline) × (elim times [
      | [] ↦ none
      | p ∷ later ↦ timeline scale (segments_from duration p later)
    ]
        ≡ some t)
chained_some scale duration [] a h = ground (arith, h)
chained_some scale duration (p ∷ later) a h =
    timeline-some scale p duration (segments_from duration p later) a.0
      (segments_from-IsChain duration p later a.0 a.1)

sort-length : (ms : List ℕ) → length (sort ms) ≡ length ms
unfolding sort
sort-length [] = refl
sort-length (m ∷ ms) = insert_sorted-length m (sort ms) ∙ ap suc (sort-length ms)

build_timeline-some :
    (scale duration : ℕ) (times : List ℕ)
    → AllBelow duration times
    → 0 < length times
    → (t : CueTimeline) × (build_timeline scale duration times ≡ some t)
unfolding build_timeline
build_timeline-some scale duration times a h =
    chained_some scale duration (sort times) (sort-AllBelow duration times a)
      (omega (arith, sort-length times, h))

-- There is a timeline when the cue points can all be read and give at least two times before the end of
-- the film and at most a million.
pub parse_timeline-some :
    (bytes : List ℕ) (cues : Element) (video_track scale duration : ℕ)
    → (elements bytes cues.data_offset (end cues)).1 ≡ true
    → 2 ≤ length (times_of bytes cues video_track scale duration)
    → length (times_of bytes cues video_track scale duration) ≤ max_cue_points
    → (t : CueTimeline) × (parse_timeline bytes cues video_track scale duration ≡ some t)
unfolding parse_timeline
parse_timeline-some bytes cues video_track scale duration c h k =
    let times = times_of bytes cues video_track scale duration in
    let es = (elements bytes cues.data_offset (end cues)).0 in
    let (t, e) =
      build_timeline-some scale duration times
        (cue_times-AllBelow bytes video_track scale duration es) (omega (arith, h)) in
    (t, ground (arith, c, h, k, e))
