-- ===== src/Domain.antt =====
-- The domain types of crates/rustorr-domain: identifiers, byte ranges and their errors.
mod Error
pub mod Index
pub mod Hash
pub mod Range
mod Tests
pub use Error.*
