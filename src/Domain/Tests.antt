-- ===== src/Domain/Tests.antt =====
-- Runs of the domain types, and the theorems about them at an input.
use rustorr.Base.{ℕ, ◌≡◌, refl, List, [], ◌∷◌, ◌++◌, ◌-◌, ◌^◌, ◌↔◌, ok, err, arith, replicate}
use rustorr.Domain.Error.{range_overflow, info_hash_character, info_hash_length}
use rustorr.Domain.Hash.{InfoHash, from_str, display}
use rustorr.Domain.Hash.Digits.{to_digit, join_nibbles}
use rustorr.Domain.Hash.RoundTrip.{from_str-display}
use rustorr.Domain.Range.{ByteRange, from_start_len}
use rustorr.Domain.Index.{from_one_based, one_based, one_based-from_one_based}

abbrev reference : InfoHash
reference = record {
  bytes =
      0x68 ∷ 0xc3 ∷ 0xcc ∷ 0xdd ∷ 0x52 ∷ 0xb2 ∷ 0x92 ∷ 0x5f ∷ 0x4f ∷ 0x97 ∷ 0xe2 ∷ 0xf6 ∷ 0x1e
      ∷ 0xa2 ∷ 0x48 ∷ 0xe7 ∷ 0x28 ∷ 0xe5 ∷ 0x4c ∷ 0xea ∷ [];
}

abbrev upper : List ℕ
upper = replicate 38 b'A' ++ b'0' ∷ b'f' ∷ []

abbrev upper_hash : InfoHash
upper_hash = record { bytes = replicate 19 0xaa ++ 0x0f ∷ [] }

upper_parses : from_str upper ≡ ok upper_hash
unfolding from_str to_digit join_nibbles
upper_parses = refl

short_text : from_str (b'a' ∷ []) ≡ err (info_hash_length 40 1)
unfolding from_str
short_text = refl

bad_character : from_str (replicate 39 b'a' ++ b'g' ∷ []) ≡ err (info_hash_character 39 b'g')
unfolding from_str to_digit
bad_character = refl

from_str-display_example : from_str (display reference) ≡ ok reference
from_str-display_example = from_str-display reference refl (omega arith)

abbrev ten_to_25 : ByteRange
ten_to_25 = record { start = 10; end = 25 }

overflow : from_start_len (2 ^ 64 - 1) 1 ≡ err (range_overflow (2 ^ 64 - 1) 1)
unfolding from_start_len
overflow = refl

first_file : (from_one_based 1 ≡ ok (record { index = 0 })) ↔ (one_based (record { index = 0 }) ≡ 1)
first_file = one_based-from_one_based 1 (record { index = 0 })
