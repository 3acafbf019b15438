-- ===== src/Gstreamer/Cue.antt =====
-- crates/rustorr-gstreamer/src/cue.rs: elements (Element), the metadata before the clusters (Metadata),
-- the cue points (Timeline), what is read of the source (Source). Here are its constants.
pub mod Element
pub mod Metadata
pub mod Timeline
pub mod Source
mod Tests
use rustorr.Base.{ℕ}

abbrev pub ebml : ℕ
ebml = 440786851

abbrev pub segment : ℕ
segment = 408125543

abbrev pub seek_head : ℕ
seek_head = 290298740

abbrev pub seek : ℕ
seek = 19899

abbrev pub seek_entry : ℕ
seek_entry = 21419

abbrev pub seek_position : ℕ
seek_position = 21420

abbrev pub info : ℕ
info = 357149030

abbrev pub timestamp_scale : ℕ
timestamp_scale = 2807729

abbrev pub tracks : ℕ
tracks = 374648427

abbrev pub track_entry : ℕ
track_entry = 174

abbrev pub track_number : ℕ
track_number = 215

abbrev pub track_type : ℕ
track_type = 131

abbrev pub cues : ℕ
cues = 475249515

abbrev pub cue_point : ℕ
cue_point = 187

abbrev pub cue_time : ℕ
cue_time = 179

abbrev pub cue_track_positions : ℕ
cue_track_positions = 183

abbrev pub cue_track : ℕ
cue_track = 247

abbrev pub cue_cluster_position : ℕ
cue_cluster_position = 241

abbrev pub default_timestamp_scale_ns : ℕ
default_timestamp_scale_ns = 1000000

abbrev pub prefix_length : ℕ
prefix_length = 4194304

abbrev pub max_metadata : ℕ
max_metadata = 8388608

abbrev pub max_cues : ℕ
max_cues = 67108864

abbrev pub max_cue_points : ℕ
max_cue_points = 1000000
