-- ===== src/Discovery.antt =====
-- crates/rustorr-discovery: the messages of the mDNS responder.
pub mod Dns
