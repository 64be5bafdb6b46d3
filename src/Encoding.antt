-- ===== src/Encoding.antt =====
-- src/encoding.rs: base64 and bounded text. `sha256_hex`, `now_unix_ms` and the printing of JSON are
-- calls of other crates and of the system: parameters where they are used.
pub mod Base64
