-- ===== src/NodeInfo/Compare.antt =====
-- The comparisons of nodes and address lists in NodeInfo/node_info.c.
mod Defs
pub mod Values
pub mod Computes
pub mod SameIps
unfoldable pub use Defs.*
