-- ===== src/JoinServer/Session.antt =====
-- A registration of `register_node` of JoinTest/node_join.c with the server of
-- JoinTest/node_join_server.c.
use vpnp2p.Prelude.{◌+◌, pos, length}
use vpnp2p.CString.{Bytes, codes}
use vpnp2p.Message.{Message, with_nul}
use vpnp2p.NodeInfo.Heap.{Heap}
use vpnp2p.Server.Defs.{type_array}

-- The message of `register_node`, and the reply with this text.
abbrev pub join_request : Bytes → Message
join_request text = record {
  type = with_nul (codes "Register");
  buf = text;
  size = pos (length text + 1);
}

abbrev pub join_reply : Bytes → Message
join_reply text = record {
  type = type_array (codes "R_Register");
  buf = text;
  size = pos (length text);
}
