-- ===== src/Gstreamer/Mp4/Writer.antt =====
-- Writing the boxes of a segment.
pub mod Sizes
pub mod Samples
pub mod RoundTrip
use rustorr.Base.{
  ℕ, zero, suc, ◌+◌, ◌*◌, ◌/◌, ◌%◌, Bool, Option, List, [], ◌∷◌, ◌++◌, if◌then◌else◌, ◌==◌, ltb,
  Result, ok, err, ◌>>=◌, length, u32_mod, u64_mod,
}
use rustorr.Gstreamer.Mp4.{
  Mp4Error, unwritable_trun, unsupported_trun_version, trun_too_large, Sample, Run, Fragment,
  mfhd_box, tfdt_box, tfhd_box, mdat_box, trun_box,
}

-- `to_be_bytes` of a `u32` and of a `u64`
unfoldable pub be_bytes32 : ℕ → List ℕ
be_bytes32 w = w / 16777216 % 256 ∷ w / 65536 % 256 ∷ w / 256 % 256 ∷ w % 256 ∷ []

unfoldable pub be_bytes64 : ℕ → List ℕ
unfolding be_bytes32
be_bytes64 w = be_bytes32 (w / u32_mod) ++ be_bytes32 (w % u32_mod)

unfoldable pub write_header : List ℕ → ℕ → ℕ → List ℕ
unfolding be_bytes32
write_header output size kind = output ++ be_bytes32 size ++ be_bytes32 kind

unfoldable pub write_tfdt : List ℕ → ℕ → List ℕ
unfolding be_bytes32 be_bytes64
write_tfdt output decode_time =
    output ++ be_bytes32 20 ++ be_bytes32 tfdt_box ++ be_bytes32 16777216 ++ be_bytes64 decode_time

unfoldable pub write_mfhd : List ℕ → ℕ → List ℕ
unfolding be_bytes32
write_mfhd output sequence =
    output ++ be_bytes32 16 ++ be_bytes32 mfhd_box ++ be_bytes32 0 ++ be_bytes32 sequence

unfoldable pub write_mdat_header : List ℕ → ℕ → ℕ → List ℕ
unfolding write_header be_bytes64
write_mdat_header output payload_length header_size =
    if header_size == 8
    then write_header output ((payload_length + 8) % u32_mod) mdat_box
    else write_header output 1 mdat_box ++ be_bytes64 ((payload_length + 16) % u64_mod)

-- The flags are those of the description index (2) and of `default-base-is-moof` (0x20000).
unfoldable pub canonical_tfhd : ℕ → ℕ → List ℕ
unfolding be_bytes32
canonical_tfhd track_id description_index =
    be_bytes32 20
    ++ be_bytes32 tfhd_box
    ++ be_bytes32 131074
    ++ be_bytes32 track_id
    ++ be_bytes32 description_index

unfoldable pub canonical_trun_size : Run → ℕ
canonical_trun_size run =
    (20 + length run.samples * (if run.has_composition_time_offsets then 16 else 12)) % u64_mod

unfoldable pub sum_trun_sizes : List Run → ℕ
unfolding canonical_trun_size
sum_trun_sizes [] = 0
sum_trun_sizes (r ∷ rs) = (canonical_trun_size r + sum_trun_sizes rs) % u64_mod

unfoldable pub runs_of : List Fragment → List Run
runs_of [] = []
runs_of (f ∷ fs) = f.runs ++ runs_of fs

-- `fragments[..count]` is given.
unfoldable pub traf_size : List Fragment → ℕ
unfolding sum_trun_sizes runs_of
traf_size fragments = (48 + sum_trun_sizes (runs_of fragments)) % u64_mod

unfoldable pub sample_bytes : Bool → Sample → List ℕ
unfolding be_bytes32
sample_bytes offsets s =
    be_bytes32 s.duration
    ++ be_bytes32 s.size
    ++ be_bytes32 s.flags
    ++ (if offsets then be_bytes32 s.composition_time_offset_raw else [])

unfoldable pub samples_bytes : Bool → List Sample → List ℕ
unfolding sample_bytes
samples_bytes offsets [] = []
samples_bytes offsets (s ∷ ss) = sample_bytes offsets s ++ samples_bytes offsets ss

-- The offset of the data, the duration, the size, the flags, and with them the composition offset.
unfoldable pub canonical_flags : Bool → ℕ
canonical_flags offsets = if offsets then 3841 else 1793

unfoldable pub trun_bytes : Run → ℕ → List ℕ
unfolding be_bytes32 samples_bytes canonical_trun_size canonical_flags
trun_bytes run data_offset =
    be_bytes32 (canonical_trun_size run)
    ++ be_bytes32 trun_box
    ++ be_bytes32 (run.version * 16777216 + canonical_flags run.has_composition_time_offsets)
    ++ be_bytes32 (length run.samples % u32_mod)
    ++ be_bytes32 data_offset
    ++ samples_bytes run.has_composition_time_offsets run.samples

unfoldable pub write_canonical_trun : List ℕ → Run → ℕ → Result Mp4Error (List ℕ)
unfolding trun_bytes canonical_trun_size
write_canonical_trun output run data_offset =
    if length run.samples == 0
    then err unwritable_trun
    else if ltb 1 run.version
    then err (unsupported_trun_version run.version)
    else if ltb (canonical_trun_size run) u32_mod
    then ok (output ++ trun_bytes run data_offset)
    else err trun_too_large
