-- ===== src/JoinServer.antt =====
-- JoinTest/node_join_server.c: an earlier server, which takes every message for a registration.
mod Defs
pub mod Session
unfoldable pub use Defs.*
