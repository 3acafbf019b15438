-- ===== src/Domain/Hash/Digits.antt =====
-- Hexadecimal digits of one byte.
use Prim.Native.Nat.{bit_or}
use rustorr.Base.{
  ℕ, zero, suc, ◌+◌, ◌-◌, ◌*◌, ◌/◌, ◌%◌, ◌<◌, ◌≡◌, refl, Bool, true, Option, none, some, arith, ltb,
  leb, ◌==◌, ◌&&◌, if◌then◌else◌, ◌≤◌, Bool-cases, inl, inr,
}

-- `char::to_digit(16)`
unfoldable pub to_digit : ℕ → Option ℕ
to_digit c =
    if leb b'0' c && leb c b'9'
    then some (c - b'0')
    else if leb b'a' c && leb c b'f'
    then some (c - b'a' + 10)
    else if leb b'A' c && leb c b'F'
    then some (c - b'A' + 10)
    else none

-- The digit that `{:x}` prints.
unfoldable pub digit_char : ℕ → ℕ
digit_char d = if ltb d 10 then b'0' + d else b'a' + (d - 10)

-- `(hi << 4) | lo` on `u8`.
unfoldable pub join_nibbles : ℕ → ℕ → ℕ
join_nibbles hi lo = bit_or (hi * 16 % 256) lo

unfoldable pub to_ascii_lowercase : ℕ → ℕ
to_ascii_lowercase c = if leb b'A' c && leb c b'Z' then c + 32 else c

-- Whether each of `count` bytes, from `b` on, is joined from its two digits.
digits_join : ℕ → ℕ → Bool
unfolding join_nibbles
digits_join b zero = true
digits_join b (suc count) = (join_nibbles (b / 16) (b % 16) == b) && digits_join (b + 1) count

digits_join_each :
    (b count x : ℕ)
    → digits_join b count ≡ true
    → b ≤ x
    → x < b + count
    → join_nibbles (x / 16) (x % 16) ≡ x
unfolding digits_join
digits_join_each b zero x all low high = absurd (omega arith)
digits_join_each b (suc count) x all low high =
    let later = digits_join_each (b + 1) count x in
    elim (Bool-cases (b == x)) [ inl e ↦ ground (arith, e) | inr e ↦ ground (arith, e, later) ]

every_byte : digits_join 0 256 ≡ true
unfolding digits_join join_nibbles
every_byte = refl

-- A byte is joined from its two digits.
pub join_nibbles_lem : (b : ℕ) → b < 256 → join_nibbles (b / 16) (b % 16) ≡ b
join_nibbles_lem b h = digits_join_each 0 256 b every_byte (omega arith) (omega arith)

pub join_nibbles_sum : (hi lo : ℕ) → hi < 16 → lo < 16 → join_nibbles hi lo ≡ hi * 16 + lo
join_nibbles_sum hi lo h k =
    let e : (hi * 16 + lo) / 16 ≡ hi = omega arith in
    let f : (hi * 16 + lo) % 16 ≡ lo = omega arith in
    rw (e, f) at (join_nibbles_lem (hi * 16 + lo) (omega arith))

pub to_digit-digit_char : (d : ℕ) → d < 16 → to_digit (digit_char d) ≡ some d
unfolding to_digit digit_char
to_digit-digit_char d h = ground arith

pub digit_char-to_digit : (c d : ℕ) → to_digit c ≡ some d → digit_char d ≡ to_ascii_lowercase c
unfolding to_digit digit_char to_ascii_lowercase
digit_char-to_digit c d h = ground arith

pub to_digit-lt : (c d : ℕ) → to_digit c ≡ some d → d < 16
unfolding to_digit
to_digit-lt c d h = ground arith
