-- ===== src/NodeInfo.antt =====
-- NodeInfo/node_info.c and NodeInfo/node_info.h: the lists of nodes and of their addresses.
pub mod Heap
pub mod Values
pub mod Lines
pub mod Parse
pub mod Print
pub mod Chain
pub mod Access
pub mod Compare
pub mod RoundTrip
pub mod Merge
pub mod IpMerge
pub mod Generate
