-- ===== src/Meshcom.antt =====
-- internal/meshcom: control messages, outgoing texts and source paths.
pub mod Notice
pub mod Tags
pub mod Utf8
pub mod Outgoing
