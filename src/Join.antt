-- ===== src/Join.antt =====
-- JoinTest/node_join.c with the functions of Util/util.c and Util/message.c that it calls.
mod Defs
pub mod Addresses
pub mod Registration
pub mod Cluster
pub mod Serves
pub mod Overread
unfoldable pub use Defs.*
