-- ===== src/Tls.antt =====
-- agents/linux/tls_parse.c: the key shares in TLS hello messages and the keys derived from them.
pub mod Digest
pub mod Hello
pub mod Records
pub mod Safety
pub mod Walk
pub mod Cursor
pub mod Format
pub mod RoundTrip
pub mod Stream
pub mod Tests
