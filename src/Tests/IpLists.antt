-- ===== src/Tests/IpLists.antt =====
-- `ip_list_merge` of NodeInfo/node_info.c at two lists in one heap.
use vpnp2p.Prelude.{◌≡◌, refl, some, none, [], ◌∷◌, pos, arith, ◌==◌, if◌then◌else◌}
use vpnp2p.CString.{codes, str_eq}
use vpnp2p.NodeInfo.Heap.{Heap, ok}
use vpnp2p.NodeInfo.IpMerge.{ip_list_merge}
use vpnp2p.NodeInfo.IpMerge.Addresses.{Gathers}
use vpnp2p.NodeInfo.IpMerge.Own.{code, Leaves}
use vpnp2p.NodeInfo.IpMerge.Refines.{ip_list_merge-ip_merge}
use vpnp2p.NodeInfo.IpMerge.Spec.{meet, meet_all, meet_own, ip_merge}
use vpnp2p.NodeInfo.IpMerge.Walk.{AllEnd, infos}
use vpnp2p.NodeInfo.Values.{Ip}
use vpnp2p.Tests.Samples.{loopback, unset_node}

abbrev remote : Ip
remote = record loopback { ip = codes "10.0.0.5"; type = codes "serverIP" }

abbrev later : Ip
later = record loopback { s_count = pos 3 }

-- One address at 1, and at 2 and 3 an unknown one and a later version of the first.
abbrev two_ip_lists : Heap
two_ip_lists = record {
  ips = λ p.
      if p == 2
      then record { info = remote; next_ip = 3 }
      else if p == 3
      then record { info = later; next_ip = 0 }
      else record { info = loopback; next_ip = 0 };
  nodes = λ p. unset_node;
  brk = 4;
}

two_ip_lists-AllEnd : AllEnd two_ip_lists
two_ip_lists-AllEnd a low = ground arith

ip_list_merge-ip_merge_example :
    (h' : Heap) × (ip_list_merge 5 1 2 two_ip_lists
      ≡ ok
          (code (ip_merge (infos two_ip_lists.ips (1 ∷ [])) (infos two_ip_lists.ips (2 ∷ 3 ∷ []))))
          h')
    × Leaves h' 1 (ip_merge (infos two_ip_lists.ips (1 ∷ [])) (infos two_ip_lists.ips (2 ∷ 3 ∷ [])))
    × Gathers
        (infos two_ip_lists.ips (1 ∷ []))
        (infos two_ip_lists.ips (2 ∷ 3 ∷ []))
        (ip_merge (infos two_ip_lists.ips (1 ∷ [])) (infos two_ip_lists.ips (2 ∷ 3 ∷ [])))
ip_list_merge-ip_merge_example =
    ip_list_merge-ip_merge 5 1 2 1 [] (2 ∷ 3 ∷ []) two_ip_lists (omega arith)
      (refl, omega arith, omega arith, refl)
      (refl, omega arith, omega arith, (refl, omega arith, omega arith, refl))
      ((omega arith, (omega arith, tt)), ((omega arith, tt), (tt, tt))) two_ip_lists-AllEnd

-- The later version of the first address stands in the list twice.
ip_merge_run : ip_merge (loopback ∷ []) (remote ∷ later ∷ []) ≡ some (later ∷ remote ∷ later ∷ [])
unfolding ip_merge meet_own meet_all meet str_eq
ip_merge_run = refl

ip_merge_conflict_run :
    ip_merge (loopback ∷ []) (record loopback { type = codes "serverIP" } ∷ []) ≡ none
unfolding ip_merge meet_all meet str_eq
ip_merge_conflict_run = refl
