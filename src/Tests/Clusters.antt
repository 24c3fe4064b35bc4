-- ===== src/Tests/Clusters.antt =====
-- The theorems on `join` of JoinTest/node_join.c, at a server that replies with one node.
use vpnp2p.Prelude.{
  ◌+◌, ◌++◌, ◌≡◌, ◌≢◌, refl, true, none, some, List, [], ◌∷◌, pos, arith, length, take,
}
use vpnp2p.CString.{Bytes, codes}
use vpnp2p.Join.Cluster.{Contact, join, pointer_in_string, little_end}
use vpnp2p.Join.Overread.{join-never_returns}
use vpnp2p.Join.Serves.{Serves}
use vpnp2p.Message
use vpnp2p.Message.Transfer.{all_succeed, arrive}
use vpnp2p.Message.{Message, r_register, with_nul, htonl_bytes}
use vpnp2p.NodeInfo.Heap.{Heap, ok, fault, out_of_bounds}
use vpnp2p.NodeInfo.Print.Render.{render}
use vpnp2p.Server.{type_array}
use vpnp2p.Tests.Samples.{second_node, unset_ip, unset_node, fresh}

-- A node stands in the cell 3, and its address in the cell 4.
abbrev cluster : Heap
cluster = record {
  ips = λ p. unset_ip;
  nodes =
      λ p. record unset_node { id = pos 123; node_count = pos 1; reliable = pos 1; ip_list = 4 };
  brk = 5;
}

abbrev answer_pieces : List Bytes
answer_pieces =
    htonl_bytes (length (render (second_node ∷ [])) + 1)
    ∷ take 20 (type_array r_register)
    ∷ take (length (render (second_node ∷ [])) + 1) (with_nul (render (second_node ∷ [])))
    ∷ []

abbrev peer : Contact
peer = record { connects = true; succeeds = all_succeed; answers = arrive answer_pieces }

join-never_returns_example :
    join
      (λ i. peer)
      (λ i. peer)
      true
      9
      41
      (some (codes "10.0.0.2") ∷ none ∷ [])
      (codes "127.0.0.1")
      true
      3
      none
      cluster
    ≢ ok (some none) cluster
join-never_returns_example =
    join-never_returns (λ i. peer) (λ i. peer) true 9 41 (some (codes "10.0.0.2") ∷ none ∷ [])
      (codes "127.0.0.1") true 3 none none cluster cluster (omega arith)

-- A string of 23 bytes has room for `ip_list` but not for `next_node`.
pointer_in_string_run :
    (pointer_in_string (codes "0123456789abcdef\tsecond") 16 fresh
      ≡ ok (little_end (codes "\tsecond" ++ 0 ∷ [])) fresh)
    × (pointer_in_string (codes "0123456789abcdef\tsecond") 24 fresh ≡ fault out_of_bounds)
unfolding pointer_in_string little_end
pointer_in_string_run = (refl, refl)
