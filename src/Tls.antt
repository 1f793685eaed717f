-- ===== src/Tls.antt =====
-- solvetls/tls: ClientHello, its extensions, and the registries' names.
pub mod Enums
pub mod ClientHello
pub mod Extensions
