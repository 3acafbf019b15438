-- ===== src/Gstreamer/Mp4/Writer/Samples.antt =====
-- The samples of a `trun`, read back one after the other.
use rustorr.Base.{
  ℕ, zero, suc, ◌+◌, ◌≤◌, ◌<◌, ◌≡◌, refl, ap, sym, ◌∙◌, subst, Bool, true, false, some, List, [],
  ◌∷◌, ◌++◌, arith, Result, ok, length, drop, All, u32_mod, u64_mod, if◌then◌else◌,
}
use mathlib.Core.List.{append-nil, append_assoc}
use rustorr.Gstreamer.Mp4.{Mp4Error, Sample, Run, sum_durations, sum_sizes}
use rustorr.Gstreamer.Mp4.Boxes.{be32, read_u32}
use rustorr.Gstreamer.Mp4.Moof.{TrunFields, read_if, read_sample, push_sample, read_samples}
use rustorr.Gstreamer.Mp4.Writer.{be_bytes32, sample_bytes, samples_bytes}
use rustorr.Gstreamer.Mp4.Writer.Sizes.{be32-be_bytes32}

-- The bytes at the cursor, up to the end of the buffer.
pub record IsAt (buf : List ℕ) (cursor : ℕ) (rest : List ℕ) : Type 0 where
  pub bytes : drop cursor buf ≡ rest
  pub ends : cursor + length rest ≡ length buf

drop_nil : (n : ℕ) → drop {A = ℕ} n [] ≡ []
drop_nil zero = refl
drop_nil (suc n) = refl

pub drop_add : (m n : ℕ) (xs : List ℕ) → drop (m + n) xs ≡ drop n (drop m xs)
drop_add zero n xs = ap (λ k. drop k xs) {y = n} (omega arith)
drop_add (suc m) n [] =
    let sum : suc m + n ≡ suc (m + n) = omega arith in
    ap (λ k. drop {A = ℕ} k []) sum ∙ sym (drop_nil n)
drop_add (suc m) n (x ∷ xs) =
    let sum : suc m + n ≡ suc (m + n) = omega arith in
    ap (λ k. drop k (x ∷ xs)) sum ∙ drop_add m n xs

pub word-IsAt :
    (buf : List ℕ) (cursor w : ℕ) (rest : List ℕ)
    → IsAt buf cursor (be_bytes32 w ++ rest)
    → IsAt buf (cursor + 4) rest
unfolding be_bytes32
word-IsAt buf cursor w rest a = record {
  bytes = drop_add cursor 4 buf ∙ ap (λ x. drop 4 x) a.bytes;
  ends = omega (arith, a.ends);
}

pub read_u32-IsAt :
    (buf : List ℕ) (cursor w : ℕ) (rest : List ℕ)
    → w < u32_mod
    → IsAt buf cursor (be_bytes32 w ++ rest)
    → read_u32 buf cursor ≡ some (w, cursor + 4)
unfolding read_u32 be_bytes32
read_u32-IsAt buf cursor w rest low a =
    let value : be32 (drop cursor buf) ≡ w = ap be32 a.bytes ∙ be32-be_bytes32 w rest low in
    let fits : cursor + 4 ≤ length buf = omega (arith, a.ends) in ground (arith, value, fits)

-- A sample as it is written: its fields are words, and without a composition offset that one is 0.
pub record IsSample (offsets : Bool) (s : Sample) : Type 0 where
  pub duration : s.duration < u32_mod
  pub size : s.size < u32_mod
  pub flags : s.flags < u32_mod
  pub offset : s.composition_time_offset_raw < (if offsets then u32_mod else 1)

unfoldable pub fields_of : ℕ → ℕ → ℕ → Bool → TrunFields
fields_of d s f offsets = record {
  default_duration = d;
  default_size = s;
  default_flags = f;
  first_flags = f;
  has_first_flags = false;
  has_duration = true;
  has_size = true;
  has_flags = true;
  has_offsets = offsets;
}

unfoldable pub sample_size : Bool → ℕ
sample_size offsets = if offsets then 16 else 12

pub read_sample-IsAt :
    (d z f : ℕ) (offsets first : Bool) (buf : List ℕ) (cursor : ℕ) (s : Sample) (rest : List ℕ)
    → IsSample offsets s
    → IsAt buf cursor (sample_bytes offsets s ++ rest)
    → (read_sample (fields_of d z f offsets) buf first cursor
        ≡ ok (s, cursor + sample_size offsets))
      × IsAt buf (cursor + sample_size offsets) rest
unfolding read_sample sample_bytes fields_of sample_size read_if be_bytes32
read_sample-IsAt d z f true first buf cursor s rest w a =
    let post = be_bytes32 s.composition_time_offset_raw ++ rest in
    let r1 =
      read_u32-IsAt buf cursor s.duration (be_bytes32 s.size ++ be_bytes32 s.flags ++ post)
        w.duration a in
    let a1 = word-IsAt buf cursor s.duration (be_bytes32 s.size ++ be_bytes32 s.flags ++ post) a in
    let r2 = read_u32-IsAt buf (cursor + 4) s.size (be_bytes32 s.flags ++ post) w.size a1 in
    let a2 = word-IsAt buf (cursor + 4) s.size (be_bytes32 s.flags ++ post) a1 in
    let r3 = read_u32-IsAt buf (cursor + 4 + 4) s.flags post w.flags a2 in
    let a3 = word-IsAt buf (cursor + 4 + 4) s.flags post a2 in
    let r4 =
      read_u32-IsAt buf (cursor + 4 + 4 + 4) s.composition_time_offset_raw rest w.offset a3 in
    let a4 = word-IsAt buf (cursor + 4 + 4 + 4) s.composition_time_offset_raw rest a3 in
    let sum : cursor + 4 + 4 + 4 + 4 ≡ cursor + 16 = omega arith in
    (rw (r1, r2, r3, r4) (ap (λ c. ok (s, c)) sum), subst (λ c. IsAt buf c rest) sum a4)
read_sample-IsAt d z f false first buf cursor s rest w a =
    let post = rest in
    let r1 =
      read_u32-IsAt buf cursor s.duration (be_bytes32 s.size ++ be_bytes32 s.flags ++ post)
        w.duration a in
    let a1 = word-IsAt buf cursor s.duration (be_bytes32 s.size ++ be_bytes32 s.flags ++ post) a in
    let r2 = read_u32-IsAt buf (cursor + 4) s.size (be_bytes32 s.flags ++ post) w.size a1 in
    let a2 = word-IsAt buf (cursor + 4) s.size (be_bytes32 s.flags ++ post) a1 in
    let r3 = read_u32-IsAt buf (cursor + 4 + 4) s.flags post w.flags a2 in
    let a3 = word-IsAt buf (cursor + 4 + 4) s.flags post a2 in
    let sum : cursor + 4 + 4 + 4 ≡ cursor + 12 = omega arith in
    let none_given : 0 ≡ s.composition_time_offset_raw = omega (arith, w.offset) in
    (
      rw (r1, r2, r3)
          (ap (λ c. ok (record s { composition_time_offset_raw = 0 }, c)) sum
            ∙ ap (λ o. ok (record s { composition_time_offset_raw = o }, cursor + 12)) none_given),
      subst (λ c. IsAt buf c rest) sum a3,
    )

unfoldable pub with_samples : Run → List Sample → ℕ → ℕ → Run
with_samples run ss duration data_size = record run {
  samples = ss;
  duration = duration;
  data_size = data_size;
}

same_read :
    (run : Run) (ss ss' : List Sample) (d d' z z' c c' : ℕ)
    → ss ≡ ss'
    → d ≡ d'
    → z ≡ z'
    → c ≡ c'
    → ◌≡◌ {A = Result Mp4Error (Run × ℕ)}
        (ok (with_samples run ss d z, c))
        (ok (with_samples run ss' d' z', c'))
same_read run ss ss' d d' z z' c c' p q r t = rw (p, q, r, t) refl

pub read_samples-IsAt :
    (d z f : ℕ) (offsets first : Bool) (buf : List ℕ) (cursor : ℕ) (ss : List Sample) (run : Run)
    → All (IsSample offsets) ss
    → IsAt buf cursor (samples_bytes offsets ss)
    → run.duration + sum_durations ss < u64_mod
    → run.data_size + sum_sizes ss < u64_mod
    → read_samples (fields_of d z f offsets) buf (length ss) first cursor run
      ≡ ok (
        with_samples run
            (run.samples ++ ss)
            (run.duration + sum_durations ss)
            (run.data_size + sum_sizes ss),
        length buf,
      )
unfolding read_samples samples_bytes sum_durations sum_sizes push_sample with_samples
read_samples-IsAt d z f offsets first buf cursor [] run w a h k =
    same_read run run.samples (run.samples ++ []) run.duration (run.duration + 0) run.data_size
      (run.data_size + 0) cursor (length buf) (sym (append-nil run.samples)) (omega arith)
      (omega arith) (omega (arith, a.ends))
read_samples-IsAt d z f offsets first buf cursor (s ∷ ss) run w a h k =
    let (r, a') =
      read_sample-IsAt d z f offsets first buf cursor s (samples_bytes offsets ss) w.0 a in
    let run' : Run =
      with_samples run (run.samples ++ s ∷ []) (run.duration + s.duration)
        (run.data_size + s.size) in
    let pushed : push_sample run s ≡ ok run' = ground (arith, h, k) in
    let rest =
      read_samples-IsAt d z f offsets false buf (cursor + sample_size offsets) ss run' w.1 a'
        (omega (arith, h)) (omega (arith, k)) in
    rw (r, pushed)
      (rest
        ∙ same_read run ((run.samples ++ s ∷ []) ++ ss) (run.samples ++ s ∷ ss)
            (run.duration + s.duration + sum_durations ss)
            (run.duration + (s.duration + sum_durations ss)) (run.data_size + s.size + sum_sizes ss)
            (run.data_size + (s.size + sum_sizes ss)) (length buf) (length buf)
            (append_assoc run.samples (s ∷ []) ss) (omega arith) (omega arith) refl)
