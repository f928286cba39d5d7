-- ===== src/Tls/RoundTrip.antt =====
-- The parser of agents/linux/tls_parse.c finds in a printed message what the format puts there.
pub mod Client
pub mod Server
pub mod Stream
