-- ===== src/Http.antt =====
-- crates/rustorr-http/src
pub mod Range
pub mod Clean
pub mod Lock
pub mod Etag
pub mod Serve
