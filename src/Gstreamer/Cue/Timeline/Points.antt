-- ===== src/Gstreamer/Cue/Timeline/Points.antt =====
-- The cue points of a video track: `video_cue_time` and `has_video_position` by the fields that count.
use rustorr.Base.{
  ℕ, ◌≡◌, ◌↔◌, ◌∙◌, refl, ap, sym, subst, Bool, true, false, Option, none, some, List, [], ◌∷◌,
  ◌==◌, ◌&&◌, ◌||◌, if◌then◌else◌, arith, Has, Bool-cases, Option-cases, inl, inr,
}
use rustorr.Gstreamer.Cue.Element.{Element, end, unsigned, elements}
use rustorr.Gstreamer.Cue.Metadata.{unsigned_or_zero}
use rustorr.Gstreamer.Cue.{cue_time, cue_track_positions, cue_track, cue_cluster_position}
use rustorr.Gstreamer.Cue.Timeline.{
  position_field, position_fields, has_video_position, point_field, point_fields, video_cue_time,
}

-- The children of an element, and the last of them with an id.
abbrev pub children : List ℕ → Element → List Element
children bytes parent = (elements bytes parent.data_offset (end parent)).0

abbrev pub are_all_read : List ℕ → Element → Bool
are_all_read bytes parent = (elements bytes parent.data_offset (end parent)).1

pub last_with : ℕ → List Element → Option Element
last_with id [] = none
last_with id (e ∷ es) = elim (last_with id es) [
  | none ↦ if e.id == id then some e else none
  | some l ↦ some l
]

-- The track that positions name: 0 when they name none, or none that can be read.
pub track_of : List ℕ → ℕ → Option Element → ℕ
track_of bytes otherwise none = otherwise
track_of bytes otherwise (some e) = unsigned_or_zero bytes e

-- Positions of the track, with a cluster: the last of each field counts.
pub record IsVideoPosition (bytes : List ℕ) (video_track : ℕ) (positions : Element) : Type 0 where
  pub complete : are_all_read bytes positions ≡ true
  pub track : track_of bytes 0 (last_with cue_track (children bytes positions)) ≡ video_track
  pub cluster : Element
  pub cluster_last : last_with cue_cluster_position (children bytes positions) ≡ some cluster
  pub place : ℕ
  pub readable : unsigned bytes cluster ≡ some place

-- The time of a cue point that has positions of the track.
pub record IsVideoTime (bytes : List ℕ) (video_track : ℕ) (point : Element) (time : ℕ)
    : Type 0 where
  pub complete : are_all_read bytes point ≡ true
  pub field : Element
  pub field_last : last_with cue_time (children bytes point) ≡ some field
  pub readable : unsigned bytes field ≡ some time
  pub positions : Element
  pub positions_child : Has positions (children bytes point)
  pub positions_id : positions.id ≡ cue_track_positions
  pub of_video : IsVideoPosition bytes video_track positions

cluster_of : List ℕ → Bool → Option Element → Bool
cluster_of bytes otherwise none = otherwise
cluster_of bytes otherwise (some e) = elim (unsigned bytes e) [ none ↦ false | some n ↦ true ]

position_fields-last :
    (bytes : List ℕ) (es : List Element) (track : ℕ) (has_cluster : Bool)
    → position_fields bytes es (track, has_cluster) ≡ (
      track_of bytes track (last_with cue_track es),
      cluster_of bytes has_cluster (last_with cue_cluster_position es),
    )
unfolding position_fields position_field track_of cluster_of last_with
position_fields-last bytes [] track has_cluster = refl
position_fields-last bytes (e ∷ es) track has_cluster =
    let (track', has_cluster') = position_field bytes e (track, has_cluster) in
    ground (arith, position_fields-last bytes es track' has_cluster')

has_video_position-last :
    (bytes : List ℕ) (positions : Element) (video_track : ℕ)
    → has_video_position bytes positions video_track ≡ (
        are_all_read bytes positions
        && (track_of bytes 0 (last_with cue_track (children bytes positions)) == video_track
            && cluster_of bytes false (last_with cue_cluster_position (children bytes positions))))
unfolding has_video_position
has_video_position-last bytes positions video_track =
    ap (λ f. are_all_read bytes positions && (f.0 == video_track && f.1))
      (position_fields-last bytes (children bytes positions) 0 false)

cluster_of-some :
    (bytes : List ℕ) (o : Option Element)
    → cluster_of bytes false o ≡ true
    → (cluster : Element) × (place : ℕ) × (o ≡ some cluster) × (unsigned bytes cluster ≡ some place)
unfolding cluster_of
cluster_of-some bytes none e = cc
cluster_of-some bytes (some c) e = elim (Option-cases (unsigned bytes c)) [
  | inl q ↦ ground (arith, e, q)
  | inr (n, q) ↦ (c, n, refl, q)
]

readable-cluster_of :
    (bytes : List ℕ) (cluster : Element) (place : ℕ)
    → unsigned bytes cluster ≡ some place
    → cluster_of bytes false (some cluster) ≡ true
unfolding cluster_of
readable-cluster_of bytes cluster place e = rw (cluster_of, e)

has_video_position_iff :
    (bytes : List ℕ) (positions : Element) (video_track : ℕ)
    → (has_video_position bytes positions video_track ≡ true)
      ↔ IsVideoPosition bytes video_track positions
has_video_position_iff bytes positions video_track =
    let last = has_video_position-last bytes positions video_track in
    let o = last_with cue_cluster_position (children bytes positions) in
    (
      λ e.
          let (cluster, place, q, r) = cluster_of-some bytes o (ground (arith, e, last)) in
          record {
            complete = ground (arith, e, last);
            track = ground (arith, e, last);
            cluster = cluster;
            cluster_last = q;
            place = place;
            readable = r;
          },
      λ v.
          let in_cluster : cluster_of bytes false o ≡ true =
            ap (cluster_of bytes false) v.cluster_last
            ∙ readable-cluster_of bytes v.cluster v.place v.readable in
          ground (arith, last, v.complete, v.track, in_cluster),
    )

any_position : List ℕ → ℕ → List Element → Bool
any_position bytes video_track [] = false
any_position bytes video_track (e ∷ es) =
    (e.id == cue_track_positions && has_video_position bytes e video_track)
    || any_position bytes video_track es

time_of : List ℕ → Option ℕ → Option Element → Option ℕ
time_of bytes otherwise none = otherwise
time_of bytes otherwise (some e) = unsigned bytes e

point_fields-last :
    (bytes : List ℕ) (video_track : ℕ) (es : List Element) (time : Option ℕ) (has_position : Bool)
    → point_fields bytes video_track es (time, has_position) ≡ (
      time_of bytes time (last_with cue_time es),
      has_position || any_position bytes video_track es,
    )
unfolding point_fields point_field time_of last_with any_position
point_fields-last bytes video_track [] time has_position = ground arith
point_fields-last bytes video_track (e ∷ es) time has_position =
    let (time', has_position') = point_field bytes video_track e (time, has_position) in
    ground (arith, point_fields-last bytes video_track es time' has_position')

any_position-Has :
    (bytes : List ℕ) (video_track : ℕ) (es : List Element)
    → any_position bytes video_track es ≡ true
    → (p : Element) × Has p es
      × (p.id ≡ cue_track_positions)
      × (has_video_position bytes p video_track ≡ true)
unfolding any_position
any_position-Has bytes video_track [] h = cc
any_position-Has bytes video_track (e ∷ es) h =
    elim (Bool-cases (e.id == cue_track_positions && has_video_position bytes e video_track)) [
      | inl q ↦ (e, inl refl, ground (arith, q), ground (arith, q))
      | inr q ↦
          let (p, has_p, at, r) = any_position-Has bytes video_track es (ground (arith, h, q)) in
          (p, inr has_p, at, r)
    ]

Has-any_position :
    (bytes : List ℕ) (video_track : ℕ) (es : List Element) (p : Element)
    → Has p es
    → p.id ≡ cue_track_positions
    → has_video_position bytes p video_track ≡ true
    → any_position bytes video_track es ≡ true
unfolding any_position
Has-any_position bytes video_track [] p h at r = absurd h
Has-any_position bytes video_track (e ∷ es) p (inl q) at r =
    let same : (e.id == cue_track_positions && has_video_position bytes e video_track) ≡ true =
      subst (λ x. (x.id == cue_track_positions && has_video_position bytes x video_track) ≡ true)
        (sym q) (ground (arith, at, r)) in
    ground (arith, same)
Has-any_position bytes video_track (e ∷ es) p (inr q) at r =
    ground (arith, Has-any_position bytes video_track es p q at r)

video_cue_time-last :
    (bytes : List ℕ) (point : Element) (video_track : ℕ)
    → video_cue_time bytes point video_track ≡ (
        if are_all_read bytes point && any_position bytes video_track (children bytes point)
        then time_of bytes none (last_with cue_time (children bytes point))
        else none)
unfolding video_cue_time
video_cue_time-last bytes point video_track =
    ap (λ f. if are_all_read bytes point && f.1 then f.0 else none)
      (point_fields-last bytes video_track (children bytes point) none false)

time_of-some :
    (bytes : List ℕ) (o : Option Element) (time : ℕ)
    → time_of bytes none o ≡ some time
    → (field : Element) × (o ≡ some field) × (unsigned bytes field ≡ some time)
unfolding time_of
time_of-some bytes none time e = cc
time_of-some bytes (some f) time e = (f, refl, e)

pub video_cue_time_iff :
    (bytes : List ℕ) (point : Element) (video_track time : ℕ)
    → (video_cue_time bytes point video_track ≡ some time)
      ↔ IsVideoTime bytes video_track point time
video_cue_time_iff bytes point video_track time =
    let last = video_cue_time-last bytes point video_track in
    let o = last_with cue_time (children bytes point) in
    (
      λ e.
          let (field, q, r) = time_of-some bytes o time (ground (arith, e, last)) in
          let (p, has_p, at, v) =
            any_position-Has bytes video_track (children bytes point) (ground (arith, e, last)) in
          record {
            complete = ground (arith, e, last);
            field = field;
            field_last = q;
            readable = r;
            positions = p;
            positions_child = has_p;
            positions_id = at;
            of_video = (has_video_position_iff bytes p video_track).0 v;
          },
      λ v.
          let at_time : time_of bytes none o ≡ some time =
            ap (time_of bytes none) v.field_last ∙ (unfold time_of in v.readable) in
          let any =
            Has-any_position bytes video_track (children bytes point) v.positions v.positions_child
              v.positions_id
              ((has_video_position_iff bytes v.positions video_track).1 v.of_video) in
          ground (arith, last, v.complete, any, at_time),
    )
