-- ===== src/NodeInfo/IpMerge.antt =====
-- `ip_list_merge` of NodeInfo/node_info.c.
mod Defs
pub mod Spec
pub mod Addresses
pub mod Walk
pub mod MeetsOne
pub mod Meets
pub mod Apart
pub mod Own
pub mod Link
pub mod Refines
unfoldable pub use Defs.*
