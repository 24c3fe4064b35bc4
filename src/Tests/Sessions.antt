-- ===== src/Tests/Sessions.antt =====
-- The theorem on JoinTest/node_join_server.c, at one registration.
use vpnp2p.CString.{Bytes}
use vpnp2p.NodeInfo.Heap.{Heap}
