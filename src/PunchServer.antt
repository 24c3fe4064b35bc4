-- ===== src/PunchServer.antt =====
-- PunchTest/udp_server.c: a server that answers every packet.
mod Defs
pub mod Answers
unfoldable pub use Defs.*
