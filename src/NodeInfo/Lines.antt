-- ===== src/NodeInfo/Lines.antt =====
-- The lines of a text: `split` of NodeInfo/node_info.c with its `strtok`, and the `fgets` loop of
-- `file2struct`.
mod Defs
pub mod Laws
unfoldable pub use Defs.*
