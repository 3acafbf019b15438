-- ===== src/Gstreamer/Mp4.antt =====
-- crates/rustorr-gstreamer/src/mp4box.rs: the boxes of fragmented MP4, the samples of a fragment and
-- its division. A byte is a number below 256, a `u32` one below 2 ^ 32; an `i32` and an `i64` are the
-- word of their two's complement. An error stands for its message.
pub mod Boxes
pub mod Init
pub mod Moof
pub mod Writer
pub mod Split
pub mod Track
pub mod Queue
mod Tests
use rustorr.Base.{
  ℕ, zero, suc, ◌+◌, ◌-◌, ◌*◌, ◌/◌, ◌%◌, Bool, Option, List, u32_mod, u64_mod, if◌then◌else◌, ltb,
  ◌==◌, not, ◌&&◌, [], ◌∷◌,
}

abbrev pub four_cc : ℕ → ℕ → ℕ → ℕ → ℕ
four_cc a b c d = a * 16777216 + b * 65536 + c * 256 + d

abbrev pub styp_box : ℕ
styp_box = four_cc 115 116 121 112

abbrev pub sidx_box : ℕ
sidx_box = four_cc 115 105 100 120

abbrev pub emsg_box : ℕ
emsg_box = four_cc 101 109 115 103

abbrev pub free_box : ℕ
free_box = four_cc 102 114 101 101

abbrev pub prft_box : ℕ
prft_box = four_cc 112 114 102 116

abbrev pub moov_box : ℕ
moov_box = four_cc 109 111 111 118

abbrev pub moof_box : ℕ
moof_box = four_cc 109 111 111 102

abbrev pub mdat_box : ℕ
mdat_box = four_cc 109 100 97 116

abbrev pub mfhd_box : ℕ
mfhd_box = four_cc 109 102 104 100

abbrev pub traf_box : ℕ
traf_box = four_cc 116 114 97 102

abbrev pub tfhd_box : ℕ
tfhd_box = four_cc 116 102 104 100

abbrev pub tfdt_box : ℕ
tfdt_box = four_cc 116 102 100 116

abbrev pub trun_box : ℕ
trun_box = four_cc 116 114 117 110

abbrev pub trak_box : ℕ
trak_box = four_cc 116 114 97 107

abbrev pub tkhd_box : ℕ
tkhd_box = four_cc 116 107 104 100

abbrev pub mdia_box : ℕ
mdia_box = four_cc 109 100 105 97

abbrev pub mdhd_box : ℕ
mdhd_box = four_cc 109 100 104 100

abbrev pub hdlr_box : ℕ
hdlr_box = four_cc 104 100 108 114

abbrev pub mvex_box : ℕ
mvex_box = four_cc 109 118 101 120

abbrev pub trex_box : ℕ
trex_box = four_cc 116 114 101 120

abbrev pub mfra_box : ℕ
mfra_box = four_cc 109 102 114 97

abbrev pub handler_video : ℕ
handler_video = four_cc 118 105 100 101

abbrev pub handler_audio : ℕ
handler_audio = four_cc 115 111 117 110

abbrev pub tfhd_base_data_offset : ℕ
tfhd_base_data_offset = 1

abbrev pub tfhd_sample_description_index : ℕ
tfhd_sample_description_index = 2

abbrev pub tfhd_default_duration : ℕ
tfhd_default_duration = 8

abbrev pub tfhd_default_size : ℕ
tfhd_default_size = 16

abbrev pub tfhd_default_flags : ℕ
tfhd_default_flags = 32

abbrev pub tfhd_duration_is_empty : ℕ
tfhd_duration_is_empty = 65536

abbrev pub tfhd_default_base_is_moof : ℕ
tfhd_default_base_is_moof = 131072

abbrev pub trun_data_offset : ℕ
trun_data_offset = 1

abbrev pub trun_first_sample_flags : ℕ
trun_first_sample_flags = 4

abbrev pub trun_duration : ℕ
trun_duration = 256

abbrev pub trun_size : ℕ
trun_size = 512

abbrev pub trun_flags : ℕ
trun_flags = 1024

abbrev pub trun_composition_offset : ℕ
trun_composition_offset = 2048

abbrev pub max_trun_samples : ℕ
max_trun_samples = 1000000

abbrev pub canonical_tfhd_size : ℕ
canonical_tfhd_size = 20

-- `a & b` of two words of so many bits.
unfoldable pub bit_and : ℕ → ℕ → ℕ → ℕ
bit_and zero a b = 0
bit_and (suc w) a b = (a % 2) * (b % 2) + 2 * bit_and w (a / 2) (b / 2)

-- `flags & bit != 0`
unfoldable pub has_flag : ℕ → ℕ → Bool
unfolding bit_and
has_flag flags bit = not (bit_and 32 flags bit == 0)

-- `flags & !known`
unfoldable pub without_bits : ℕ → ℕ → ℕ
unfolding bit_and
without_bits flags known = bit_and 32 flags (u32_mod - 1 - known)

-- `word as i64` of an `i32`
unfoldable pub sign_extend : ℕ → ℕ
sign_extend w = if ltb w 2147483648 then w else w + (u64_mod - u32_mod)

pub data Mp4Error : Type 0 where
  not_one_moof : Mp4Error
  many_trafs : Mp4Error
  no_traf : Mp4Error
  duplicate_tfhd : Mp4Error
  duplicate_tfdt : Mp4Error
  invalid_tfdt : Mp4Error
  unsupported_in_traf : ℕ → Mp4Error
  no_tfhd_or_tfdt : Mp4Error
  unsupported_track : ℕ → Mp4Error
  zero_timescale : ℕ → Mp4Error
  no_description_index : ℕ → Mp4Error
  fragment_duration_overflow : Mp4Error
  no_trun_or_duration : Mp4Error
  tfhd_too_small : Mp4Error
  unsupported_tfhd_version : ℕ → Mp4Error
  unsupported_tfhd_flags : ℕ → Mp4Error
  base_data_offset_unsupported : Mp4Error
  duration_is_empty_unsupported : Mp4Error
  zero_track_id : Mp4Error
  invalid_description_index : Mp4Error
  invalid_default_duration : Mp4Error
  invalid_default_size : Mp4Error
  invalid_default_flags : Mp4Error
  invalid_tfhd_body : Mp4Error
  trun_too_small : Mp4Error
  unsupported_trun_version : ℕ → Mp4Error
  unsupported_trun_flags : ℕ → Mp4Error
  no_samples : Mp4Error
  invalid_data_offset : Mp4Error
  both_flags : Mp4Error
  invalid_first_flags : Mp4Error
  no_duration : Mp4Error
  no_size : Mp4Error
  too_many_samples : ℕ → Mp4Error
  invalid_trun_body : Mp4Error
  invalid_sample_duration : Mp4Error
  invalid_sample_size : Mp4Error
  invalid_sample_flags : Mp4Error
  invalid_composition_offset : Mp4Error
  trun_duration_overflow : Mp4Error
  trun_size_overflow : Mp4Error
  no_derived_samples : Mp4Error
  derived_duration_overflow : Mp4Error
  derived_size_overflow : Mp4Error
  invalid_derived_trun : Mp4Error
  no_moov : Mp4Error
  many_videos : Mp4Error
  many_audios : Mp4Error
  invalid_trex : Mp4Error
  no_video : Mp4Error
  no_audio_timescale : Mp4Error
  empty_run : Mp4Error
  empty_fragment : Mp4Error
  split_outside : ℕ → ℕ → Mp4Error
  unsplittable_run : Mp4Error
  unpartitioned : Mp4Error
  split_duration_mismatch : Mp4Error
  split_payload_mismatch : Mp4Error
  right_decode_time_overflow : Mp4Error
  not_contiguous : ℕ → ℕ → Mp4Error
  payload_too_large : Mp4Error
  mdat_mismatch : ℕ → ℕ → Mp4Error
  invalid_count : Mp4Error
  unmergeable : ℕ → Mp4Error
  no_first_sample : Mp4Error
  decode_time_too_large : Mp4Error
  presentation_overflow : Mp4Error
  presentation_underflow : Mp4Error
  unwritable_trun : Mp4Error
  trun_too_large : Mp4Error
  timescale_is_zero : Mp4Error
  nanoseconds_overflow : Mp4Error

pub record Trex : Type 0 where
  pub description_index : ℕ
  pub duration : ℕ
  pub size : ℕ
  pub flags : ℕ

abbrev pub default_trex : Trex
default_trex = record { description_index = 0; duration = 0; size = 0; flags = 0 }

pub record TrackIds : Type 0 where
  pub id : ℕ
  pub timescale : ℕ
  pub trex : Trex

pub record Tfhd : Type 0 where
  pub track_id : ℕ
  pub sample_description_index : Option ℕ
  pub default_duration : ℕ
  pub default_size : ℕ
  pub default_flags : Option ℕ

pub record Sample : Type 0 where
  pub duration : ℕ
  pub size : ℕ
  pub flags : ℕ
  pub composition_time_offset_raw : ℕ

pub record Run : Type 0 where
  pub source_data_offset : Option ℕ
  pub samples : List Sample
  pub version : ℕ
  pub has_composition_time_offsets : Bool
  pub duration : ℕ
  pub data_size : ℕ
  pub payload_offset : ℕ
  pub output_offset : ℕ
  pub starts_with_sync : Bool
  pub has_inferred_duration : Bool

pub record Fragment : Type 0 where
  pub track_id : ℕ
  pub timescale : ℕ
  pub decode_time : ℕ
  pub duration : ℕ
  pub starts_with_sync : Bool
  pub sample_description_index : ℕ
  pub tfhd : List ℕ
  pub runs : List Run
  pub payload_start : ℕ
  pub payload_len : ℕ
  pub has_inferred_duration : Bool

unfoldable pub is_sync_sample : ℕ → Bool
unfolding has_flag bit_and
is_sync_sample flags = not (has_flag flags 65536) && not (bit_and 32 (flags / 16777216) 3 == 1)

-- The loops that sum what the samples take; `checked_add` may fail.
unfoldable pub sum_durations : List Sample → ℕ
sum_durations [] = 0
sum_durations (s ∷ ss) = s.duration + sum_durations ss

unfoldable pub sum_sizes : List Sample → ℕ
sum_sizes [] = 0
sum_sizes (s ∷ ss) = s.size + sum_sizes ss
