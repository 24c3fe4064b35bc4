-- ===== src/NodeInfo/Parse/Writes.antt =====
-- The assignments of the two readers, on valid pointers.
use vpnp2p.Prelude.{◌<◌, ◌≡◌, ℤ, length}
use vpnp2p.CString.{Bytes}
use vpnp2p.NodeInfo.Access.{load_ip-ok, load_node-ok, store_ip-ok, store_node-ok, copy_into-ok}
use vpnp2p.NodeInfo.Heap.{Ptr, IpCell, NodeCell, Heap, ok, update}
use vpnp2p.NodeInfo.Parse.Defs.{
  set_id, set_node_count, set_reliable, set_ip_list, set_next_node, set_next_ip, set_ip, set_type,
  set_s_count, set_validity,
}

-- The heap with one cell written.
abbrev pub with_ip : Heap → Ptr → IpCell → Heap
with_ip h p c = record h { ips = update h.ips p c }

abbrev pub with_node : Heap → Ptr → NodeCell → Heap
with_node h p c = record h { nodes = update h.nodes p c }

module _ (p : Ptr) (h : Heap) (positive : 0 < p) (low : p < h.brk) where
  pub set_id-ok : (z : ℤ) → set_id p z h ≡ ok tt (with_node h p (record (h.nodes p) { id = z }))
  unfolding set_id
  set_id-ok z = rw (load_node-ok p h positive low, store_node-ok p h positive low)

  pub set_node_count-ok :
      (z : ℤ) → set_node_count p z h ≡ ok tt (with_node h p (record (h.nodes p) { node_count = z }))
  unfolding set_node_count
  set_node_count-ok z = rw (load_node-ok p h positive low, store_node-ok p h positive low)

  pub set_reliable-ok :
      (z : ℤ) → set_reliable p z h ≡ ok tt (with_node h p (record (h.nodes p) { reliable = z }))
  unfolding set_reliable
  set_reliable-ok z = rw (load_node-ok p h positive low, store_node-ok p h positive low)

  pub set_ip_list-ok :
      (q : Ptr) → set_ip_list p q h ≡ ok tt (with_node h p (record (h.nodes p) { ip_list = q }))
  unfolding set_ip_list
  set_ip_list-ok q = rw (load_node-ok p h positive low, store_node-ok p h positive low)

  pub set_next_node-ok :
      (q : Ptr) → set_next_node p q h ≡ ok tt (with_node h p (record (h.nodes p) { next_node = q }))
  unfolding set_next_node
  set_next_node-ok q = rw (load_node-ok p h positive low, store_node-ok p h positive low)

  pub set_next_ip-ok :
      (q : Ptr) → set_next_ip p q h ≡ ok tt (with_ip h p (record (h.ips p) { next_ip = q }))
  unfolding set_next_ip
  set_next_ip-ok q = rw (load_ip-ok p h positive low, store_ip-ok p h positive low)

  pub set_ip-ok :
      (s : Bytes)
      → length s < 20
      → set_ip p s h
        ≡ ok tt (with_ip h p (record (h.ips p) { info = record (h.ips p).info { ip = s } }))
  unfolding set_ip
  set_ip-ok s fits =
      rw (load_ip-ok p h positive low, copy_into-ok 20 s h fits, store_ip-ok p h positive low)

  pub set_type-ok :
      (s : Bytes)
      → length s < 20
      → set_type p s h
        ≡ ok tt (with_ip h p (record (h.ips p) { info = record (h.ips p).info { type = s } }))
  unfolding set_type
  set_type-ok s fits =
      rw (load_ip-ok p h positive low, copy_into-ok 20 s h fits, store_ip-ok p h positive low)

  pub set_s_count-ok :
      (z : ℤ)
      → set_s_count p z h
        ≡ ok tt (with_ip h p (record (h.ips p) { info = record (h.ips p).info { s_count = z } }))
  unfolding set_s_count
  set_s_count-ok z = rw (load_ip-ok p h positive low, store_ip-ok p h positive low)

  pub set_validity-ok :
      (z : ℤ)
      → set_validity p z h
        ≡ ok tt (with_ip h p (record (h.ips p) { info = record (h.ips p).info { validity = z } }))
  unfolding set_validity
  set_validity-ok z = rw (load_ip-ok p h positive low, store_ip-ok p h positive low)
