-- ===== src/Gstreamer/Cue/Element.antt =====
-- Elements of a Matroska file: `Element`, `vint_length`, `read_element_at`, `unsigned` and the loops
-- over the children of an element.
pub mod Bounds
pub mod Walk
use rustorr.Base.{
  ℕ, zero, suc, ◌+◌, ◌*◌, ◌-◌, ◌/◌, ◌%◌, Bool, true, false, Option, none, some, List, [], ◌∷◌, ltb,
  leb, ◌==◌, ◌||◌, not, if◌then◌else◌, u64_mod, length, get_elem?, take, drop,
}
use rustorr.Base.Options.{◌>>=◌}

pub record Element : Type 0 where
  pub id : ℕ
  pub offset : ℕ
  pub data_offset : ℕ
  pub size : ℕ
  pub unknown_size : Bool

unfoldable pub end : Element → ℕ
end e = (e.data_offset + e.size) % u64_mod

-- The mask moves right until it meets a bit of the byte.
unfoldable pub vint_loop : ℕ → ℕ → ℕ → ℕ → ℕ
vint_loop zero first n mask = n
vint_loop (suc rounds) first n mask =
    let rest = vint_loop rounds first (n + 1) (mask / 2) in
    if (first / mask) % 2 == 0 then rest else n

unfoldable pub vint_length : ℕ → ℕ → Option ℕ
unfolding vint_loop
vint_length first max_length =
    let n = vint_loop max_length first 1 128 in if leb n max_length then some n else none

-- `fold(value, |value, byte| value << 8 | byte)`
unfoldable pub fold_bytes : ℕ → List ℕ → ℕ
fold_bytes value [] = value
fold_bytes value (b ∷ bs) = fold_bytes ((value * 256) % u64_mod + b) bs

abbrev pub slice : List ℕ → ℕ → ℕ → List ℕ
slice bytes at n = take n (drop at bytes)

-- `1 << bits` and `0x80 >> n`
unfoldable pub shift_left : ℕ → ℕ → ℕ
shift_left v zero = v
shift_left v (suc n) = shift_left (v * 2) n

unfoldable pub shift_right : ℕ → ℕ → ℕ
shift_right v zero = v
shift_right v (suc n) = shift_right (v / 2) n

unfoldable pub size_value : ℕ → List ℕ → ℕ → ℕ → ℕ
unfolding fold_bytes shift_right
size_value size_first bytes size_offset size_length =
    fold_bytes (size_first % shift_right 128 (size_length - 1))
      (slice bytes (size_offset + 1) (size_length - 1))

unfoldable pub sized_element : List ℕ → ℕ → ℕ → ℕ → ℕ → Element
unfolding size_value shift_left
sized_element bytes offset id_length size_first size_length =
    let size = size_value size_first bytes (offset + id_length) size_length in
    record {
      id = fold_bytes 0 (slice bytes offset id_length);
      offset = offset;
      data_offset = offset + id_length + size_length;
      size = size;
      unknown_size = size == shift_left 1 (size_length * 7) - 1;
    }

-- The element whose identifier and size take so many bytes.
unfoldable pub element_with : List ℕ → ℕ → ℕ → ℕ → ℕ → Option Element
unfolding sized_element
element_with bytes offset id_length size_first size_length =
    if ltb (length bytes - (offset + id_length)) size_length
    then none
    else some (sized_element bytes offset id_length size_first size_length)

unfoldable pub element_after : List ℕ → ℕ → ℕ → Option Element
unfolding vint_length element_with
element_after bytes offset id_length =
    if ltb (length bytes - offset) (id_length + 1) then none else do
      size_first ← get_elem? bytes (offset + id_length)
      size_length ← vint_length size_first 8
      element_with bytes offset id_length size_first size_length

unfoldable pub read_element_at : List ℕ → ℕ → Option Element
unfolding vint_length element_after
read_element_at bytes offset = do
  first ← get_elem? bytes offset
  id_length ← vint_length first 4
  element_after bytes offset id_length

unfoldable pub unsigned : List ℕ → Element → Option ℕ
unfolding end fold_bytes
unsigned bytes e =
    if e.size == 0 || (ltb 8 e.size || ltb (length bytes) (end e))
    then none
    else some (fold_bytes 0 (slice bytes e.data_offset (end e - e.data_offset)))

-- The element at a place, if its size is known and it ends by `limit`.
unfoldable pub element_within : List ℕ → ℕ → ℕ → Option Element
unfolding end
element_within bytes offset limit = do
  e ← read_element_at bytes offset
  if e.unknown_size || ltb limit (end e) then none else some e

-- The elements from `offset` to `limit`, up to the first that is malformed, and whether the limit was
-- reached.
unfoldable pub walk : ℕ → List ℕ → ℕ → ℕ → List Element × Bool
unfolding element_within end
walk zero bytes offset limit = ([], not (ltb offset limit))
walk (suc rounds) bytes offset limit =
    if ltb offset limit
    then elim (element_within bytes offset limit) [
      | none ↦ ([], false)
      | some e ↦ let rest = walk rounds bytes (end e) limit in (e ∷ rest.0, rest.1)
    ]
    else ([], true)

-- Every element takes two bytes at least.
unfoldable pub elements : List ℕ → ℕ → ℕ → List Element × Bool
unfolding walk
elements bytes offset limit = walk (length bytes) bytes offset limit

unfoldable pub children : List ℕ → Element → List Element
unfolding elements
children bytes parent = (elements bytes parent.data_offset (end parent)).0
