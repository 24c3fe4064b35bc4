-- ===== src/NodeInfo/Values.antt =====
-- What the lists of NodeInfo/node_info.h stand for: nodes and addresses without their pointers.
use vpnp2p.Prelude.{List, ℤ}
use vpnp2p.CString.{Bytes}

-- The fields of `struct IP` other than `next_ip`.
pub record Ip : Type 0 where
  pub ip : Bytes
  pub type : Bytes
  pub s_count : ℤ
  pub validity : ℤ

pub record Node : Type 0 where
  pub id : ℤ
  pub node_count : ℤ
  pub reliable : ℤ
  pub ip_list : List Ip
