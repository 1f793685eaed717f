-- ===== src/Wire.antt =====
-- solvetls/wire: the cursor over a buffer that every TLS and TCP/IP parser uses, and the names of
-- raw wire values. `Bytes` holds what the code takes from `struct`.
pub mod Bytes
pub mod Reader
pub mod Naming
