-- ===== src/Cache.antt =====
-- The cache of crates/rustorr-cache.
pub mod Extents
pub mod Error
pub mod Layout
pub mod Pieces
pub mod Store
pub mod Memory
pub mod Disk
pub mod Registry
