-- ===== src/Domain/Hash.antt =====
-- crates/rustorr-domain/src/info_hash.rs. A text is its list of code points.
pub mod Digits
pub mod RoundTrip
use rustorr.Base.{
  ℕ, suc, ◌+◌, ◌-◌, ◌*◌, ◌/◌, ◌%◌, ◌≡◌, Bool, true, false, Option, none, some, List, [], ◌∷◌, ◌++◌,
  ltb, leb, ◌==◌, ◌&&◌, if◌then◌else◌, length, Result, ok, err, ◌>>=◌, ok_or, arith, refl, ap, ◌↔◌,
}
use rustorr.Base.Map.{Eq}
use rustorr.Domain.Error.{DomainError, info_hash_length, info_hash_character}
use Digits.{to_digit, digit_char, join_nibbles}

-- A `[u8; 20]`.
pub record InfoHash : Type 0 where
  pub bytes : List ℕ

abbrev pub hex_len : ℕ
hex_len = 40

-- The loop that turns characters into digits, from a position on.
unfoldable pub digits_of : ℕ → List ℕ → Result DomainError (List ℕ)
digits_of position [] = ok []
digits_of position (c ∷ cs) =
    let rest = digits_of (position + 1) cs in
    do d ← ok_or (to_digit c) (info_hash_character position c); ds ← rest; ok (d ∷ ds)

-- `chunks_exact(2)`: an odd digit at the end is left out.
unfoldable pub bytes_of : List ℕ → List ℕ
bytes_of [] = []
bytes_of (hi ∷ []) = []
bytes_of (hi ∷ lo ∷ ds) = join_nibbles hi lo ∷ bytes_of ds

unfoldable pub from_str : List ℕ → Result DomainError InfoHash
unfolding digits_of bytes_of
from_str text =
    if length text == hex_len
    then (do ds ← digits_of 0 text; ok (record { bytes = bytes_of ds }))
    else err (info_hash_length hex_len (length text))

-- `{byte:02x}` for each byte.
unfoldable pub display_bytes : List ℕ → List ℕ
display_bytes [] = []
display_bytes (b ∷ bs) = digit_char (b / 16) ∷ digit_char (b % 16) ∷ display_bytes bs

unfoldable pub display : InfoHash → List ℕ
unfolding display_bytes
display h = display_bytes h.bytes

bytes_eq : List ℕ → List ℕ → Bool
bytes_eq [] [] = true
bytes_eq (x ∷ xs) (y ∷ ys) = x == y && bytes_eq xs ys
bytes_eq _ _ = false

bytes_eq_iff : (xs ys : List ℕ) → (bytes_eq xs ys ≡ true) ↔ (xs ≡ ys)
unfolding bytes_eq
bytes_eq_iff [] [] = (λ e. refl, λ e. refl)
bytes_eq_iff [] (y ∷ ys) = (λ e. cc, λ e. cc)
bytes_eq_iff (x ∷ xs) [] = (λ e. cc, λ e. cc)
bytes_eq_iff (x ∷ xs) (y ∷ ys) =
    let ih = bytes_eq_iff xs ys in (λ e. ground (arith, ih.0), λ e. ground (arith, ih.1))

unfoldable pub hash_eq : InfoHash → InfoHash → Bool
unfolding bytes_eq
hash_eq a b = bytes_eq a.bytes b.bytes

pub hash_eq_iff : (a b : InfoHash) → (hash_eq a b ≡ true) ↔ (a ≡ b)
unfolding hash_eq
hash_eq_iff a b = (
  λ e. ap (λ l. record { bytes = l }) ((bytes_eq_iff a.bytes b.bytes).0 e),
  λ e. (bytes_eq_iff a.bytes b.bytes).1 (ap (λ (h : InfoHash). h.bytes) e),
)

instance abbrev pub info_hash_eq : Eq InfoHash
info_hash_eq = record { beq = hash_eq; beq_iff = hash_eq_iff }
