-- ===== src/NodeInfo/Access.antt =====
-- Reads and writes through pointers that may be followed.
use vpnp2p.Prelude.{ℕ, ◌<◌, ◌≡◌, true, false, arith, ◌==◌, length}
use vpnp2p.CString.{Bytes}
use vpnp2p.NodeInfo.Heap.{
  Ptr, null, IpCell, NodeCell, Heap, ok, update, is_valid, load_ip, load_node, store_ip, store_node,
  copy_into,
}

pub not_null : (p : Ptr) → 0 < p → (p == null) ≡ false
not_null p h = ground arith

module _ (p : Ptr) (h : Heap) (positive : 0 < p) (low : p < h.brk) where
  valid : is_valid p h ≡ true
  unfolding is_valid
  valid = ground arith

  pub load_ip-ok : load_ip p h ≡ ok (h.ips p) h
  unfolding load_ip
  load_ip-ok = rw valid

  pub load_node-ok : load_node p h ≡ ok (h.nodes p) h
  unfolding load_node
  load_node-ok = rw valid

  pub store_ip-ok : (c : IpCell) → store_ip p c h ≡ ok tt (record h { ips = update h.ips p c })
  unfolding store_ip
  store_ip-ok c = rw valid

  pub store_node-ok :
      (c : NodeCell) → store_node p c h ≡ ok tt (record h { nodes = update h.nodes p c })
  unfolding store_node
  store_node-ok c = rw valid

pub copy_into-ok : (n : ℕ) (s : Bytes) (h : Heap) → length s < n → copy_into n s h ≡ ok s h
unfolding copy_into
copy_into-ok n s h fits = ground arith
