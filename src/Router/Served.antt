-- ===== src/Router/Served.antt =====
-- `router_refresh` of CronJob/node_cron_job.c against `thread_receive_pack` of server.c.
use vpnp2p.Prelude.{List, [], ◌∷◌, take}
use vpnp2p.CString.{Bytes}
use vpnp2p.Message
use vpnp2p.Message.{Message, regular_update_return, with_nul, htonl_bytes}
use vpnp2p.NodeInfo.Heap.{Heap}
use vpnp2p.Server.{type_array}
use vpnp2p.Table.{Table}

abbrev reply_pieces : List Bytes
reply_pieces =
    htonl_bytes 22
    ∷ take 20 (type_array regular_update_return)
    ∷ with_nul regular_update_return
    ∷ []
