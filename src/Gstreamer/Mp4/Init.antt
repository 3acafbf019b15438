-- ===== src/Gstreamer/Mp4/Init.antt =====
-- `parse_init_tracks`: the tracks of the init segment.
use rustorr.Base.{
  ℕ, List, [], ◌∷◌, ◌++◌, if◌then◌else◌, ◌==◌, ◌||◌, not, Result, ok, err, ◌>>=◌, ok_or,
}
use rustorr.Gstreamer.Mp4.{
  Mp4Error, no_moov, many_videos, many_audios, invalid_trex, no_video, no_audio_timescale, Trex,
  default_trex, TrackIds, moov_box, trak_box, mvex_box, trex_box, handler_video, handler_audio,
}
use rustorr.Gstreamer.Mp4.Boxes.{BoxAt, Track, boxes, find_box, read_track, read_trex}

-- The variables of the loop over the boxes of `moov`; a track is its id and its timescale.
pub record InitTracks : Type 0 where
  pub video : ℕ × ℕ
  pub audio : ℕ × ℕ
  pub trex_entries : List (ℕ × Trex)

unfoldable pub add_track : InitTracks → Track → Result Mp4Error InitTracks
add_track x t =
    if t.handler == handler_video
    then (if not (x.video.0 == 0)
        then err many_videos
        else ok (record x { video = (t.track_id, t.timescale) }))
    else if t.handler == handler_audio
    then (if not (x.audio.0 == 0)
        then err many_audios
        else ok (record x { audio = (t.track_id, t.timescale) }))
    else ok x

unfoldable pub add_trex_entries : InitTracks → List BoxAt → Result Mp4Error InitTracks
add_trex_entries x [] = ok x
add_trex_entries x (b ∷ bs) =
    let added =
      ok_or (read_trex b.bytes b.header) invalid_trex
      >>= (λ t. add_trex_entries (record x { trex_entries = x.trex_entries ++ t ∷ [] }) bs) in
    let skipped = add_trex_entries x bs in if b.kind == trex_box then added else skipped

unfoldable pub add_box : InitTracks → BoxAt → Result Mp4Error InitTracks
unfolding add_track add_trex_entries
add_box x b =
    if b.kind == trak_box
    then add_track x (read_track b.bytes b.header)
    else if b.kind == mvex_box
    then add_trex_entries x (boxes b.bytes b.header)
    else ok x

unfoldable pub add_boxes : InitTracks → List BoxAt → Result Mp4Error InitTracks
unfolding add_box
add_boxes x [] = ok x
add_boxes x (b ∷ bs) = do x' ← add_box x b; add_boxes x' bs

unfoldable pub trex_of : List (ℕ × Trex) → ℕ → Trex
trex_of [] id = default_trex
trex_of ((track, t) ∷ ts) id = if track == id then t else trex_of ts id

unfoldable pub init_tracks_of : InitTracks → Result Mp4Error (TrackIds × TrackIds)
unfolding trex_of
init_tracks_of x =
    let video : TrackIds = record {
      id = x.video.0;
      timescale = x.video.1;
      trex = trex_of x.trex_entries x.video.0;
    } in
    if x.video.0 == 0 || x.video.1 == 0
    then err no_video
    else if x.audio.0 == 0
    then ok (video, record { id = 0; timescale = 0; trex = default_trex })
    else if x.audio.1 == 0
    then err no_audio_timescale
    else ok (
      video,
      record { id = x.audio.0; timescale = x.audio.1; trex = trex_of x.trex_entries x.audio.0 },
    )

unfoldable pub parse_init_tracks : List ℕ → Result Mp4Error (TrackIds × TrackIds)
unfolding add_boxes init_tracks_of
parse_init_tracks init = do
  moov ← ok_or (find_box init moov_box) no_moov
  x ←
      add_boxes (record { video = (0, 0); audio = (0, 0); trex_entries = [] })
        (boxes moov.bytes moov.header)
  init_tracks_of x
