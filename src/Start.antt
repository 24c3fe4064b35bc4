-- ===== src/Start.antt =====
-- InitTest/node_start.c: the first node of a network.
mod Defs
pub mod FillsIp
pub mod File
unfoldable pub use Defs.*
