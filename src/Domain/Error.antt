-- ===== src/Domain/Error.antt =====
-- crates/rustorr-domain/src/error.rs
use rustorr.Base.{ℕ}

-- A character is its code point.
pub data DomainError : Type 0 where
  info_hash_length : ℕ → ℕ → DomainError
  info_hash_character : ℕ → ℕ → DomainError
  file_index_zero : DomainError
  range_reversed : ℕ → ℕ → DomainError
  range_overflow : ℕ → ℕ → DomainError
