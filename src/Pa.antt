-- ===== src/Pa.antt =====
-- ppp/lib_component/pa_service: a proxy client's connection, from its first bytes to its end.
pub mod Types
pub mod Lifetime
pub mod Socks
pub mod Results
pub mod Channels
pub mod Packets
pub mod Http
pub mod HttpHeaders
pub mod Session
mod Tests
