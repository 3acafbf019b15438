-- ===== src/Gstreamer/Cue/Element/Bounds.antt =====
-- Where elements lie: an element that is read ends its header in the data, and the elements that a loop
-- visits lie end to end.
use rustorr.Base.{
  ℕ, zero, suc, ◌+◌, ◌*◌, ◌-◌, ◌/◌, ◌%◌, ◌^◌, ◌≤◌, ◌<◌, ◌≡◌, refl, some, List, [], ◌∷◌, ltb,
  u64_mod, length, get_elem?, take, drop, arith, subst, Bool-cases, inl, inr,
}
use rustorr.Base.Options.{◌>>=◌, >>=-eq-some}
use rustorr.Gstreamer.Cue.Element.{
  Element, vint_loop, vint_length, fold_bytes, slice, shift_right, size_value, sized_element,
  element_with, element_after, read_element_at,
}

abbrev pub AreBytes : List ℕ → Type 0
AreBytes [] = Unit
AreBytes (b ∷ bs) = (b < 256) × AreBytes bs

take-AreBytes : (n : ℕ) (bs : List ℕ) → AreBytes bs → AreBytes (take n bs)
take-AreBytes zero bs v = tt
take-AreBytes (suc n) [] v = tt
take-AreBytes (suc n) (b ∷ bs) v = (v.0, take-AreBytes n bs v.1)

drop-AreBytes : (n : ℕ) (bs : List ℕ) → AreBytes bs → AreBytes (drop n bs)
drop-AreBytes zero bs v = v
drop-AreBytes (suc n) [] v = tt
drop-AreBytes (suc n) (b ∷ bs) v = drop-AreBytes n bs v.1

length_take : (n : ℕ) (bs : List ℕ) → length (take n bs) ≤ n
length_take zero bs = omega arith
length_take (suc n) [] = omega arith
length_take (suc n) (b ∷ bs) = omega (arith, length_take n bs)

-- `v` with `k` bytes after it.
abbrev widened : ℕ → ℕ → ℕ
widened zero v = v
widened (suc k) v = widened k (v * 256)

widened_le : (k v w : ℕ) → v ≤ w → widened k v ≤ widened k w
widened_le zero v w h = h
widened_le (suc k) v w h = widened_le k (v * 256) (w * 256) (omega arith)

le-widened : (k v : ℕ) → v ≤ widened k v
le-widened zero v = omega arith
le-widened (suc k) v = omega (arith, le-widened k (v * 256))

fold_bytes-below :
    (k v : ℕ) (bs : List ℕ)
    → AreBytes bs
    → length bs ≤ k
    → widened k (v + 1) ≤ u64_mod
    → fold_bytes v bs < widened k (v + 1)
unfolding fold_bytes
fold_bytes-below k v [] a h w = omega (arith, le-widened k (v + 1))
fold_bytes-below (suc k) v (b ∷ bs) a h w =
    let top = le-widened k ((v + 1) * 256) in
    let next = v * 256 % u64_mod + b in
    let near = widened_le k (next + 1) ((v + 1) * 256) (omega (arith, a.0)) in
    omega (arith, fold_bytes-below k next bs a.1 (omega arith) (omega arith), near)
fold_bytes-below zero v (b ∷ bs) a h w = omega arith

vint_loop-bounds :
    (rounds first n mask : ℕ)
    → (n ≤ vint_loop rounds first n mask) × (vint_loop rounds first n mask ≤ n + rounds)
unfolding vint_loop
vint_loop-bounds zero first n mask = omega arith
vint_loop-bounds (suc rounds) first n mask =
    ground (arith, vint_loop-bounds rounds first (n + 1) (mask / 2))

vint_length-bounds : (first max n : ℕ) → vint_length first max ≡ some n → (1 ≤ n) × (n ≤ max)
unfolding vint_length
vint_length-bounds first max n e = ground (arith, e, vint_loop-bounds max first 1 128)

-- A size of `k` bytes after the first, of which the bits below `d` count.
fold_bytes_masked :
    (first k d : ℕ) (bytes : List ℕ) (at : ℕ)
    → AreBytes bytes
    → 0 < d
    → widened k d ≤ 2 ^ 56
    → fold_bytes (first % d) (slice bytes at k) < 2 ^ 56
fold_bytes_masked first k d bytes at a h w =
    let near = widened_le k (first % d + 1) d (omega arith) in
    let below =
      fold_bytes-below k (first % d) (slice bytes at k)
        (take-AreBytes k (drop at bytes) (drop-AreBytes at bytes a)) (length_take k (drop at bytes))
        (omega arith) in
    omega arith

-- The first byte of a size keeps seven bits less than the bytes that follow make room for.
size_value-below :
    (n first : ℕ) (bytes : List ℕ) (at : ℕ)
    → AreBytes bytes
    → 1 ≤ n
    → n ≤ 8
    → size_value first bytes at n < 2 ^ 56
unfolding size_value shift_right
size_value-below zero first bytes at a h k = omega arith
size_value-below (suc zero) first bytes at a h k =
    fold_bytes_masked first 0 128 bytes (at + 1) a (omega arith) (omega arith)
size_value-below (suc (suc zero)) first bytes at a h k =
    fold_bytes_masked first 1 64 bytes (at + 1) a (omega arith) (omega arith)
size_value-below (suc (suc (suc zero))) first bytes at a h k =
    fold_bytes_masked first 2 32 bytes (at + 1) a (omega arith) (omega arith)
size_value-below (suc (suc (suc (suc zero)))) first bytes at a h k =
    fold_bytes_masked first 3 16 bytes (at + 1) a (omega arith) (omega arith)
size_value-below (suc (suc (suc (suc (suc zero))))) first bytes at a h k =
    fold_bytes_masked first 4 8 bytes (at + 1) a (omega arith) (omega arith)
size_value-below (suc (suc (suc (suc (suc (suc zero)))))) first bytes at a h k =
    fold_bytes_masked first 5 4 bytes (at + 1) a (omega arith) (omega arith)
size_value-below (suc (suc (suc (suc (suc (suc (suc zero))))))) first bytes at a h k =
    fold_bytes_masked first 6 2 bytes (at + 1) a (omega arith) (omega arith)
size_value-below (suc (suc (suc (suc (suc (suc (suc (suc zero)))))))) first bytes at a h k =
    fold_bytes_masked first 7 1 bytes (at + 1) a (omega arith) (omega arith)
size_value-below (suc (suc (suc (suc (suc (suc (suc (suc (suc n))))))))) first bytes at a h k =
    omega arith

-- What is read of an element: its place, and what its header may be.
pub record IsRead (bytes : List ℕ) (offset : ℕ) (e : Element) : Type 0 where
  pub place : e.offset ≡ offset
  pub header : offset + 2 ≤ e.data_offset
  pub short : e.data_offset ≤ offset + 12
  pub inside : e.data_offset ≤ length bytes
  pub size : e.size < 2 ^ 56

sized_element-IsRead :
    (bytes : List ℕ) (offset n m size_first : ℕ)
    → AreBytes bytes
    → (1 ≤ n) × (n ≤ 4)
    → (1 ≤ m) × (m ≤ 8)
    → offset + n + m ≤ length bytes
    → IsRead bytes offset (sized_element bytes offset n size_first m)
unfolding sized_element
sized_element-IsRead bytes offset n m size_first a h k l = record {
  place = refl;
  header = omega arith;
  short = omega arith;
  inside = omega arith;
  size = size_value-below m size_first bytes (offset + n) a k.0 k.1;
}

element_with-IsRead :
    (bytes : List ℕ) (offset n m size_first : ℕ) (e : Element)
    → AreBytes bytes
    → (1 ≤ n) × (n ≤ 4)
    → (1 ≤ m) × (m ≤ 8)
    → offset + n < length bytes
    → element_with bytes offset n size_first m ≡ some e
    → IsRead bytes offset e
unfolding element_with
element_with-IsRead bytes offset n m size_first e a h k l r =
    elim (Bool-cases (ltb (length bytes - (offset + n)) m)) [
      | inl short ↦ ground (arith, r, short)
      | inr fits ↦
          subst (IsRead bytes offset) (ground (arith, r, fits))
            (sized_element-IsRead bytes offset n m size_first a h k (ground (arith, fits, l)))
    ]

element_after-IsRead :
    (bytes : List ℕ) (offset n : ℕ) (e : Element)
    → AreBytes bytes
    → (1 ≤ n) × (n ≤ 4)
    → element_after bytes offset n ≡ some e
    → IsRead bytes offset e
unfolding element_after
element_after-IsRead bytes offset n e a h r =
    elim (Bool-cases (ltb (length bytes - offset) (n + 1))) [
      | inl short ↦ ground (arith, r, short)
      | inr fits ↦
          let r' : (get_elem? bytes (offset + n) >>= λ size_first.
          vint_length size_first 8 >>= element_with bytes offset n size_first)
              ≡ some e =
            ground (arith, r, fits) in
          let (size_first, first, rest) =
            >>=-eq-some (get_elem? bytes (offset + n))
              (λ b. vint_length b 8 >>= element_with bytes offset n b) r' in
          let (m, bits, last) =
            >>=-eq-some (vint_length size_first 8) (element_with bytes offset n size_first) rest in
          element_with-IsRead bytes offset n m size_first e a h
            (vint_length-bounds size_first 8 m bits) (ground (arith, fits)) last
    ]

-- An element that is read has a header of 2 to 12 bytes that lies in the data, and a size below 2^56.
pub read_element_at-IsRead :
    (bytes : List ℕ) (offset : ℕ) (e : Element)
    → AreBytes bytes
    → read_element_at bytes offset ≡ some e
    → IsRead bytes offset e
unfolding read_element_at
read_element_at-IsRead bytes offset e a r =
    let (first, byte, rest) =
      >>=-eq-some (get_elem? bytes offset) (λ b. vint_length b 4 >>= element_after bytes offset)
        r in
    let (n, bits, last) = >>=-eq-some (vint_length first 4) (element_after bytes offset) rest in
    element_after-IsRead bytes offset n e a (vint_length-bounds first 4 n bits) last
