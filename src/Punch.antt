-- ===== src/Punch.antt =====
-- PunchTest/udp_client.c: the threads of the client that punches a hole to a peer.
mod Defs
pub mod Steps
pub mod Arguments
pub mod Ports
pub mod Threads
pub mod Turns
unfoldable pub use Defs.*
