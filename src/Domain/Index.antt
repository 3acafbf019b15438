-- ===== src/Domain/Index.antt =====
-- crates/rustorr-domain/src/file_index.rs and piece_index.rs
use rustorr.Base.{ℕ, zero, suc, ◌+◌, ◌≡◌, ◌↔◌, arith, Result, ok, err}
use rustorr.Domain.Error.{DomainError, file_index_zero}

-- Zero-based, a `u32`.
pub record FileIndex : Type 0 where
  pub index : ℕ

pub record PieceIndex : Type 0 where
  pub index : ℕ

unfoldable pub from_zero_based : ℕ → FileIndex
from_zero_based i = record { index = i }

unfoldable pub from_one_based : ℕ → Result DomainError FileIndex
from_one_based zero = err file_index_zero
from_one_based (suc i) = ok (record { index = i })

unfoldable pub one_based : FileIndex → ℕ
one_based f = f.index + 1

-- A number is read as a file index exactly when it is the number that index is shown as.
pub one_based-from_one_based :
    (i : ℕ) (f : FileIndex) → (from_one_based i ≡ ok f) ↔ (one_based f ≡ i)
unfolding from_one_based one_based
one_based-from_one_based zero f = (λ e. ground arith, λ e. ground arith)
one_based-from_one_based (suc i) f = (λ e. ground arith, λ e. ground arith)
