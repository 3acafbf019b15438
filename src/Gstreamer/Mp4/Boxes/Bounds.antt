-- ===== src/Gstreamer/Mp4/Boxes/Bounds.antt =====
-- A box that is read lies inside the buffer, behind its header, and the reading goes on after it.
use rustorr.Base.{
  ℕ, zero, suc, ◌+◌, ◌-◌, ◌^◌, subst, ◌≤◌, ◌≡◌, ap, sym, some, List, arith, length, take, drop,
  Bool-cases, Option-cases, inl, inr, ltb, ◌||◌, length-drop, length-take,
}
use rustorr.Gstreamer.Mp4.Boxes.{BoxAt, box_size, box_at, try_read_box, boxes_loop, be32}

pub record IsInside (buf : List ℕ) (position : ℕ) (b : BoxAt) : Type 0 where
  pub begins : position + 8 ≤ b.end
  pub ends : b.end ≤ length buf
  pub header : b.header ≤ length b.bytes
  pub bytes : b.bytes ≡ take (b.end - position) (drop position buf)

box_size-header :
    (buf : List ℕ) (start size header : ℕ) → box_size buf start ≡ some (size, header) → 8 ≤ header
unfolding box_size
box_size-header buf start size header e = ground arith

box_at-IsInside :
    (buf : List ℕ) (position size header : ℕ) (b : BoxAt)
    → 8 ≤ header
    → box_at buf position (size, header) ≡ some b
    → position ≤ length buf
    → IsInside buf position b
unfolding box_at
box_at-IsInside buf position size header b h e p =
    elim (Bool-cases
      (ltb size header || (ltb (2 ^ 31 - 1) size || ltb (length buf - position) size))) [
        | inl bad ↦ ground (arith, e, bad)
        | inr good ↦
            let boxed : BoxAt = record {
              kind = be32 (drop (position + 4) buf);
              header = header;
              bytes = take size (drop position buf);
              end = position + size;
            } in
            let same : boxed ≡ b = ground (arith, e, good) in
            let enough : header ≤ size = ground (arith, good) in
            let fits : size ≤ length buf - position = ground (arith, good) in
            let size_eq : position + size - position ≡ size = omega arith in
            subst (IsInside buf position) same (record {
              begins = omega (arith, h, enough);
              ends = omega (arith, fits, p);
              header = omega (
                arith,
                enough,
                fits,
                length-take size (drop position buf),
                length-drop position buf,
              );
              bytes = ap (λ n. take n (drop position buf)) (sym size_eq);
            })
      ]

-- A box that `try_read_box` reads begins at the position and has at least its header; it ends inside the
-- buffer, at the position that the next box is read at.
pub try_read_box-IsInside :
    (buf : List ℕ) (position : ℕ) (b : BoxAt)
    → try_read_box buf position ≡ some b
    → IsInside buf position b
unfolding try_read_box
try_read_box-IsInside buf position b e =
    elim (Bool-cases (ltb (length buf) position || ltb (length buf - position) 8)) [
      | inl short ↦ ground (arith, e, short)
      | inr long ↦ elim (Option-cases (box_size buf position)) [
        | inl q ↦ ground (arith, e, long, q)
        | inr ((size, header), q) ↦
            box_at-IsInside buf position size header b (box_size-header buf position size header q)
              (ground (arith, e, long, q)) (ground (arith, long))
      ]
    ]

-- As many rounds as there are bytes behind the position are enough for the loop: one more sees no other
-- box.
pub boxes_loop_enough :
    (rounds : ℕ) (buf : List ℕ) (position : ℕ)
    → length buf - position ≤ rounds
    → boxes_loop (suc rounds) buf position ≡ boxes_loop rounds buf position
unfolding boxes_loop
boxes_loop_enough zero buf position h = elim (Option-cases (try_read_box buf position)) [
  | inl q ↦ ground (arith, q)
  | inr (b, q) ↦
      let i = try_read_box-IsInside buf position b q in absurd (omega (arith, i.begins, i.ends))
]
boxes_loop_enough (suc rounds) buf position h = elim (Option-cases (try_read_box buf position)) [
  | inl q ↦ ground (arith, q)
  | inr (b, q) ↦
      let i = try_read_box-IsInside buf position b q in
      let rest = boxes_loop_enough rounds buf b.end (omega (arith, h, i.begins, i.ends)) in
      ground (arith, q, rest)
]
