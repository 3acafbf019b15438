-- ===== src/Domain/Range.antt =====
-- crates/rustorr-domain/src/byte_range.rs. The fields of the Rust type are private, so every value
-- comes from one of the two constructors; `IsOrdered` is what they establish.
use rustorr.Base.{
  ℕ, ◌+◌, ◌≤◌, ◌<◌, ◌≡◌, Bool, none, some, arith, ltb, leb, ◌==◌, if◌then◌else◌, u64_mod,
  checked_add, Result, ok, err, wrapping_sub, wrapping_sub_lem,
}
use rustorr.Domain.Error.{DomainError, range_reversed, range_overflow}

-- Half-open.
pub record ByteRange : Type 0 where
  pub start : ℕ
  pub end : ℕ

unfoldable pub new : ℕ → ℕ → Result DomainError ByteRange
new start end =
    if ltb end start
    then err (range_reversed start end)
    else ok (record { start = start; end = end })

unfoldable pub from_start_len : ℕ → ℕ → Result DomainError ByteRange
from_start_len start len = elim (checked_add start len) [
  | some end ↦ ok (record { start = start; end = end })
  | none ↦ err (range_overflow start len)
]

unfoldable pub len : ByteRange → ℕ
len r = wrapping_sub r.end r.start

unfoldable pub is_empty : ByteRange → Bool
is_empty r = r.start == r.end

unfoldable pub fits_within : ByteRange → ℕ → Bool
fits_within r length = leb r.end length

-- What both constructors establish of `u64` bounds.
pub record IsOrdered (r : ByteRange) : Type 0 where
  pub ordered : r.start ≤ r.end
  pub in_word : r.end < u64_mod

pub new-IsOrdered :
    (start end : ℕ) (r : ByteRange) → end < u64_mod → new start end ≡ ok r → IsOrdered r
unfolding new
new-IsOrdered start end r h e = ground arith

pub from_start_len-IsOrdered :
    (start length : ℕ) (r : ByteRange) → from_start_len start length ≡ ok r → IsOrdered r
unfolding from_start_len
from_start_len-IsOrdered start length r e = ground arith

-- When a start and a length make a range, it has that start and that length, and is the one that `new`
-- makes.
pub len-from_start_len :
    (start length : ℕ) (r : ByteRange)
    → from_start_len start length ≡ ok r
    → (r.start ≡ start) × (len r ≡ length) × (new start (start + length) ≡ ok r)
unfolding from_start_len len new
len-from_start_len start length r e = ground (arith, wrapping_sub_lem (start + length) start)
