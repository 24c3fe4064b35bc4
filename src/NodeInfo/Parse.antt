-- ===== src/NodeInfo/Parse.antt =====
-- The readers of NodeInfo/node_info.c: `convert_buf_to_node` and `file2struct`.
mod Defs
pub mod Writes
pub mod LineReader
pub mod BufLines
pub mod FileLines
pub mod ReadIps
pub mod NodeEnds
pub mod ReadNodes
pub mod ReadList
pub mod FormatLines
unfoldable pub use Defs.*
