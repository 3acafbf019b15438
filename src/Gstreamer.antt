-- ===== src/Gstreamer.antt =====
-- crates/rustorr-gstreamer: the segment boundaries read from a Matroska file, and the fragmented MP4
-- that becomes the segments.
pub mod Cue
pub mod Mp4
