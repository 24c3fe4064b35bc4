-- ===== src/NodeInfo/Merge.antt =====
-- `node_merge` of NodeInfo/node_info.c.
mod Defs
pub mod Spec
pub mod Versions
pub mod Absorb
pub mod Last
pub mod Keep
pub mod Collect
pub mod Loop
pub mod Refines
unfoldable pub use Defs.*
