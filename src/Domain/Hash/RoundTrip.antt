-- ===== src/Domain/Hash/RoundTrip.antt =====
-- Parsing and printing of an info hash undo one another.
use rustorr.Base.{
  ℕ, zero, suc, ◌+◌, ◌*◌, ◌/◌, ◌%◌, ◌<◌, ◌≡◌, ◌≢◌, refl, ◌∙◌, List, [], ◌∷◌, map, arith, length, ok,
  err, All, inl, inr, Option-cases, Result-cases,
}
use rustorr.Domain.Error.{DomainError}
use rustorr.Domain.Hash.Digits.{
  to_digit, digit_char, to_ascii_lowercase, join_nibbles_lem, join_nibbles_sum, to_digit-digit_char,
  digit_char-to_digit, to_digit-lt,
}
use rustorr.Domain.Hash.{InfoHash, digits_of, bytes_of, from_str, display_bytes, display}

abbrev pub AreBytes : List ℕ → Type 0
AreBytes = All (λ b. b < 256)

-- The two digits of each byte.
nibbles : List ℕ → List ℕ
nibbles [] = []
nibbles (b ∷ bs) = b / 16 ∷ b % 16 ∷ nibbles bs

digits_of-display :
    (position : ℕ) (bs : List ℕ)
    → AreBytes bs
    → digits_of position (display_bytes bs) ≡ ok (nibbles bs)
unfolding digits_of display_bytes nibbles
digits_of-display position [] h = refl
digits_of-display position (b ∷ bs) h = ground (
  arith,
  to_digit-digit_char (b / 16) (omega arith),
  to_digit-digit_char (b % 16) (omega arith),
  digits_of-display (position + 1 + 1) bs h.1,
)

bytes_of-nibbles : (bs : List ℕ) → AreBytes bs → bytes_of (nibbles bs) ≡ bs
unfolding bytes_of nibbles
bytes_of-nibbles [] h = refl
bytes_of-nibbles (b ∷ bs) h = ground (arith, join_nibbles_lem b h.0, bytes_of-nibbles bs h.1)

length-display : (bs : List ℕ) → length (display_bytes bs) ≡ 2 * length bs
unfolding display_bytes
length-display [] = refl
length-display (b ∷ bs) = omega (arith, length-display bs)

-- The printed form of a hash of 20 bytes is parsed as that hash.
pub from_str-display :
    (h : InfoHash) → length h.bytes ≡ 20 → AreBytes h.bytes → from_str (display h) ≡ ok h
unfolding from_str display
from_str-display h n b =
    ground
      (arith, length-display h.bytes, digits_of-display 0 h.bytes b, bytes_of-nibbles h.bytes b)

-- Parsed digits, by characters.
digits_of-ok :
    (position : ℕ) (text ds : List ℕ)
    → digits_of position text ≡ ok ds
    → (length ds ≡ length text)
      × (map digit_char ds ≡ map to_ascii_lowercase text)
      × All (λ d. d < 16) ds
unfolding digits_of
digits_of-ok position [] ds e = ground arith
digits_of-ok position (c ∷ cs) ds e = elim (Option-cases (to_digit c)) [
  | inl q ↦ cc
  | inr (d, q) ↦ elim (Result-cases (digits_of (position + 1) cs)) [
    | inl (rest, w) ↦ ground (
      arith,
      q,
      w,
      digits_of-ok (position + 1) cs rest w,
      digit_char-to_digit c d q,
      to_digit-lt c d q,
    )
    | inr (x, w) ↦ ground (arith, q, w)
  ]
]

display-bytes_of :
    (ds : List ℕ) (n : ℕ)
    → length ds ≡ n + n
    → All (λ d. d < 16) ds
    → (display_bytes (bytes_of ds) ≡ map digit_char ds)
      × AreBytes (bytes_of ds)
      × (length (bytes_of ds) ≡ n)
unfolding display_bytes bytes_of
display-bytes_of [] n h l = ground arith
display-bytes_of (d ∷ []) n h l = absurd (omega arith)
display-bytes_of (d ∷ e ∷ ds) zero h l = absurd (omega arith)
display-bytes_of (d ∷ e ∷ ds) (suc n) h l =
    ground (arith, join_nibbles_sum d e, display-bytes_of ds n (omega arith) l.1.1)

from_str-ok :
    (text ds : List ℕ) (h : InfoHash)
    → digits_of 0 text ≡ ok ds
    → from_str text ≡ ok h
    → (length text ≡ 40) × (h.bytes ≡ bytes_of ds)
unfolding from_str
from_str-ok text ds h w e = ground (arith, w, e)

from_str-err :
    (text : List ℕ) (h : InfoHash) (x : DomainError)
    → digits_of 0 text ≡ err x
    → from_str text ≢ ok h
unfolding from_str
from_str-err text h x w e = ground (arith, w, e)

-- A text that is parsed has 40 characters; the hash has 20 bytes and prints as the text in lower
-- case.
pub display-from_str :
    (text : List ℕ) (h : InfoHash)
    → from_str text ≡ ok h
    → (length text ≡ 40)
      × (display h ≡ map to_ascii_lowercase text)
      × (length h.bytes ≡ 20)
      × AreBytes h.bytes
unfolding display
display-from_str text h e = elim (Result-cases (digits_of 0 text)) [
  | inl (ds, w) ↦
      let (n, q) = from_str-ok text ds h w e in
      let (m, chars, small) = digits_of-ok 0 text ds w in
      let (shown, bytes, twenty) = display-bytes_of ds 20 (m ∙ n) small in
      (n, rw q (shown ∙ chars), rw q twenty, rw q bytes)
  | inr (x, w) ↦ absurd (from_str-err text h x w e)
]
