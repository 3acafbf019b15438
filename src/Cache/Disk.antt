-- ===== src/Cache/Disk.antt =====
-- crates/rustorr-cache/src/disk.rs
pub mod FileSystem
pub mod Manifest
pub mod Store
