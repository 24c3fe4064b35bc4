-- ===== src/NodeInfo/Print.antt =====
-- The writers of NodeInfo/node_info.c: `struct2file` and `convert_node_to_buf`.
mod Defs
pub mod Render
pub mod Sprint
unfoldable pub use Defs.*
