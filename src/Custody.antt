-- ===== src/Custody.antt =====
-- src/request_custody.rs: the custody of request identities on disk.
pub mod Errors
pub mod Active
pub mod Markers
