-- ===== src/Gstreamer/Mp4/Split/Partition.antt =====
-- A fragment that is divided loses nothing: its halves have its samples in order, its duration and its
-- payload.
use rustorr.Base.{
  ℕ, zero, suc, ◌+◌, ◌-◌, ◌<◌, ◌≡◌, refl, ap, sym, ◌∙◌, Bool, false, List, [], ◌∷◌, ◌++◌, arith,
  ltb, leb, ◌==◌, not, ◌||◌, ok, bind-ok, ok_or, subst, length, take, drop, min, wrapping_add,
  wrapping_sub, u64_mod, checked_add, length-append, length-take,
}
use mathlib.Core.List.{append-nil, append_assoc}
use rustorr.Gstreamer.Mp4
use rustorr.Gstreamer.Mp4.{Mp4Error, Sample, Run, Fragment}
use rustorr.Gstreamer.Mp4.Moof.{check}
use rustorr.Gstreamer.Mp4.Split.{
  push_if, divide, Half, empty_half, halves_of, left_fragment, right_fragment,
  split_fragment_at_sample, fragment_sample_count,
}
use rustorr.Gstreamer.Mp4.Split.Pushes.{
  samples_of, push_if-samples, if_samples-take, if_samples-drop, take-append, drop-append,
  none_taken, none_left,
}

pub record IsPartition (f : Fragment) (split : ℕ) (l r : Fragment) : Type 0 where
  pub samples : samples_of l.runs ++ samples_of r.runs ≡ samples_of f.runs
  pub count : length (samples_of l.runs) ≡ split
  pub decode_time : (l.decode_time ≡ f.decode_time) × (r.decode_time ≡ f.decode_time + l.duration)
  pub duration : wrapping_add l.duration r.duration ≡ f.duration
  pub payload :
      (l.payload_start ≡ f.payload_start)
      × (r.payload_start ≡ wrapping_add f.payload_start l.payload_len)
      × (wrapping_add l.payload_len r.payload_len ≡ f.payload_len)

record Divided (sources : List Run) (n : ℕ) (l r : Half) (n' : ℕ) (l' r' : Half) : Type 0 where
  left : samples_of l'.runs ≡ samples_of l.runs ++ take n (samples_of sources)
  right : samples_of r'.runs ≡ samples_of r.runs ++ drop n (samples_of sources)
  rest : n' ≡ n - length (samples_of sources)
  low : l'.bytes < u64_mod
  low_right : r'.bytes < u64_mod

divide-Divided :
    (sources : List Run) (n : ℕ) (l r : Half) (n' : ℕ) (l' r' : Half)
    → l.bytes < u64_mod
    → r.bytes < u64_mod
    → divide sources n l r ≡ ok (n', l', r')
    → Divided sources n l r n' l' r'
unfolding divide samples_of
divide-Divided [] n l r n' l' r' low low' e =
    let at_n : n ≡ n' = ground (arith, e) in
    let at_l : l ≡ l' = ground (arith, e) in
    let at_r : r ≡ r' = ground (arith, e) in
    let at_taken = none_taken n [] (omega arith) in
    record {
      left =
          ap (λ x. samples_of x.runs) (sym at_l)
          ∙ sym (append-nil (samples_of l.runs))
          ∙ ap (λ x. samples_of l.runs ++ x) (sym at_taken);
      right =
          ap (λ x. samples_of x.runs) (sym at_r)
          ∙ sym (append-nil (samples_of r.runs))
          ∙ ap (λ x. samples_of r.runs ++ x) (sym (none_left n [] (omega arith)));
      rest = omega (arith, at_n);
      low = subst (λ x. x.bytes < u64_mod) at_l low;
      low_right = subst (λ x. x.bytes < u64_mod) at_r low';
    }
divide-Divided (s ∷ ss) n l r n' l' r' low low' e =
    let (u, q, e1) =
      bind-ok (check (length s.samples == 0) Mp4.unsplittable_run) _ (n', l', r') e in
    let m = min n (length s.samples) in
    let (l1, ql, e2) = bind-ok (push_if (ltb 0 m) l s (take m s.samples)) _ (n', l', r') e1 in
    let (r1, qr, e3) =
      bind-ok (push_if (ltb m (length s.samples)) r s (drop m s.samples)) _ (n', l', r') e2 in
    let pl = push_if-samples (ltb 0 m) l l1 s (take m s.samples) low ql in
    let pr = push_if-samples (ltb m (length s.samples)) r r1 s (drop m s.samples) low' qr in
    let d = divide-Divided ss (n - m) l1 r1 n' l' r' pl.1 pr.1 e3 in
    record {
      left =
          d.left
          ∙ ap (λ x. x ++ take (n - m) (samples_of ss))
              (pl.0 ∙ ap (λ x. samples_of l.runs ++ x) (if_samples-take n s.samples))
          ∙ append_assoc (samples_of l.runs) (take n s.samples) (take (n - m) (samples_of ss))
          ∙ ap (λ x. samples_of l.runs ++ x) (sym (take-append n s.samples (samples_of ss)));
      right =
          d.right
          ∙ ap (λ x. x ++ drop (n - m) (samples_of ss))
              (pr.0 ∙ ap (λ x. samples_of r.runs ++ x) (if_samples-drop n s.samples))
          ∙ append_assoc (samples_of r.runs) (drop n s.samples) (drop (n - m) (samples_of ss))
          ∙ ap (λ x. samples_of r.runs ++ x) (sym (drop-append n s.samples (samples_of ss)));
      rest = omega (arith, d.rest, length-append s.samples (samples_of ss));
      low = d.low;
      low_right = d.low_right;
    }

check-ok : (bad : Bool) (x : Mp4Error) (u : Unit {0}) → check bad x ≡ ok u → bad ≡ false
unfolding check
check-ok bad x u e = ground (arith, e)

take-drop : (n : ℕ) (ss : List Sample) → take n ss ++ drop n ss ≡ ss
take-drop zero ss = refl
take-drop (suc n) [] = refl
take-drop (suc n) (s ∷ ss) = ap (λ x. s ∷ x) (take-drop n ss)

-- What the checks after the loop have found.
record Halves (f : Fragment) (n : ℕ) (left right : Half) (l r : Fragment) : Type 0 where
  none_left_over : n ≡ 0
  duration : wrapping_add left.duration right.duration ≡ f.duration
  payload : wrapping_add left.bytes right.bytes ≡ f.payload_len
  is_left : l ≡ left_fragment f left
  is_right : r ≡ right_fragment f left.bytes (f.decode_time + left.duration) right

halves_of-Halves :
    (f : Fragment) (n : ℕ) (left right : Half) (l r : Fragment)
    → halves_of f (n, left, right) ≡ ok (l, r)
    → Halves f n left right l r
unfolding halves_of
halves_of-Halves f n left right l r e =
    let (u1, q1, e1) =
      bind-ok
        (check (not (n == 0) || length left.runs == 0 || length right.runs == 0) Mp4.unpartitioned)
        _ (l, r) e in
    let (u2, q2, e2) =
      bind-ok
        (check (not (wrapping_add left.duration right.duration == f.duration))
          Mp4.split_duration_mismatch)
        _ (l, r) e1 in
    let (u3, q3, e3) =
      bind-ok
        (check (not (wrapping_add left.bytes right.bytes == f.payload_len))
          Mp4.split_payload_mismatch)
        _ (l, r) e2 in
    let (time, q4, e4) =
      bind-ok (ok_or (checked_add f.decode_time left.duration) Mp4.right_decode_time_overflow) _
        (l, r) e3 in
    let time_eq : f.decode_time + left.duration ≡ time = ground (arith, q4) in
    record {
      none_left_over = ground (
        arith,
        check-ok (not (n == 0) || length left.runs == 0 || length right.runs == 0) Mp4.unpartitioned
            u1 q1,
      );
      duration = ground (
        arith,
        check-ok (not (wrapping_add left.duration right.duration == f.duration))
            Mp4.split_duration_mismatch u2 q2,
      );
      payload = ground (
        arith,
        check-ok (not (wrapping_add left.bytes right.bytes == f.payload_len))
            Mp4.split_payload_mismatch u3 q3,
      );
      is_left = ground (arith, e4);
      is_right = rw time_eq (ground (arith, e4));
    }

Halves-IsPartition :
    (f l r : Fragment) (n split : ℕ) (left right : Half)
    → Divided f.runs split empty_half empty_half n left right
    → Halves f n left right l r
    → IsPartition f split
        (left_fragment f left)
        (right_fragment f left.bytes (f.decode_time + left.duration) right)
unfolding samples_of left_fragment right_fragment wrapping_add wrapping_sub
Halves-IsPartition f l r n split left right d h =
    let all = samples_of f.runs in
    record {
      samples =
          ap (λ x. x ++ samples_of right.runs) d.left
          ∙ ap (λ x. take split all ++ x) d.right
          ∙ take-drop split all;
      count =
          ap (λ x. length x) d.left
          ∙ omega (arith, length-take split all, d.rest, h.none_left_over);
      decode_time = (refl, refl);
      duration = h.duration;
      payload = (refl, refl, omega (arith, h.payload, d.low));
    }

-- A fragment that is divided at a sample keeps every sample: so many of them are in the left half, the
-- others in the right half, in order. The halves share out its duration and its payload without a
-- gap, and the right half starts when the left one ends.
pub split_fragment_at_sample-IsPartition :
    (f l r : Fragment) (split : ℕ)
    → split_fragment_at_sample f split ≡ ok (l, r)
    → IsPartition f split l r
unfolding split_fragment_at_sample
split_fragment_at_sample-IsPartition f l r split e =
    let (total, q, e1) = bind-ok (fragment_sample_count f) _ (l, r) e in
    let (u, q1, e2) =
      bind-ok (check (split == 0 || leb total split) (Mp4.split_outside split total)) _ (l, r) e1 in
    let ((n, left, right), q2, e3) =
      bind-ok (divide f.runs split empty_half empty_half) _ (l, r) e2 in
    let d =
      divide-Divided f.runs split empty_half empty_half n left right (omega arith) (omega arith)
        q2 in
    let h = halves_of-Halves f n left right l r e3 in
    subst (λ x. IsPartition f split x r) (sym h.is_left)
      (subst (λ x. IsPartition f split (left_fragment f left) x) (sym h.is_right)
        (Halves-IsPartition f l r n split left right d h))
