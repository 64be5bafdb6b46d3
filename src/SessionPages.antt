-- ===== src/SessionPages.antt =====
-- src/session_turn_pages.rs: the pages in which the turns of a native session are read.
pub mod Data
pub mod Parameters
pub mod Selection
pub mod Tokens
pub mod Rows
pub mod Loaded
pub mod Turns
pub mod Parts
pub mod Page
pub mod Scan
pub mod Reads
pub mod State
