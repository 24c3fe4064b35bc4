-- ===== src/Tests/Lists.antt =====
-- The theorems on NodeInfo/node_info.c and on `handle_register` of server.c, at lists of one node.
use vpnp2p.Prelude.{
  ◌≤◌, ◌<◌, ◌≡◌, ◌↔◌, refl, Bool, true, false, some, [], ◌∷◌, List, ℤ, pos, length, arith, inl,
  ◌||◌,
}
use vpnp2p.CString.{Bytes, decimal, digits_fuel}
use vpnp2p.Message.{buf_size, r_register}
use vpnp2p.NodeInfo.Chain.{NodeChain}
use vpnp2p.NodeInfo.Compare.Computes.{node_is_identical-computes, node_is_identical_itself}
use vpnp2p.NodeInfo.Compare.SameIps.{ip_list_identical_iff}
use vpnp2p.NodeInfo.Compare.Values.{accepted_as_identical, has_ip}
use vpnp2p.NodeInfo.Compare.{node_is_identical, ip_list_identical}
use vpnp2p.NodeInfo.Heap.{Ptr, Heap, ok}
use vpnp2p.NodeInfo.Merge.Refines.{TwoLists, node_merge-merge, node_merge-has_id}
use vpnp2p.NodeInfo.Merge.Spec.{has_id, merge, newest, newer, unknown}
use vpnp2p.NodeInfo.Merge.{node_merge}
use vpnp2p.NodeInfo.Parse.{convert_buf_to_node, file2struct}
use vpnp2p.NodeInfo.Print.Render.{render, cells, struct2file-render}
use vpnp2p.NodeInfo.Print.Sprint.{convert_node_to_buf-render}
use vpnp2p.NodeInfo.Print.{struct2file, convert_node_to_buf}
use vpnp2p.NodeInfo.RoundTrip.{Builds, convert_buf_to_node-render, file2struct-render}
use vpnp2p.NodeInfo.Values.{Node}
use vpnp2p.Server.Register.{handle_register-merge}
use vpnp2p.Server.Routes.{handle_router_refresh, before, Calls, handle_router_refresh-Calls}
use vpnp2p.Server.{handle_register, type_array}
use vpnp2p.Tests.Samples.{
  loopback, first_node, second_node, fresh, first-fits_buf, second-fits_buf, first-fits_file,
  two_lists, first-held, second-held, first-chain, second-chain, first_ip-chain, second_ip-chain,
}

convert_buf_to_node-render_example :
    (p : Ptr) × (h' : Heap) × (convert_buf_to_node (render (first_node ∷ [])) fresh ≡ ok p h')
    × Builds fresh (first_node ∷ []) p h'
convert_buf_to_node-render_example =
    convert_buf_to_node-render (first_node ∷ []) fresh (omega arith) first-fits_buf (omega arith)

file2struct-render_example :
    (p : Ptr) × (h' : Heap) × (file2struct (some (render (first_node ∷ []))) fresh ≡ ok p h')
    × Builds fresh (first_node ∷ []) p h'
file2struct-render_example =
    file2struct-render (first_node ∷ []) fresh (omega arith) first-fits_file

struct2file-render_example :
    struct2file 10 true [] 4 two_lists ≡ ok (render (second_node ∷ []), pos 0) two_lists
struct2file-render_example =
    struct2file-render 10 two_lists 4 4 (second_node ∷ []) [] (omega arith) second-chain

render-length : length (render (second_node ∷ [])) < 2048
unfolding render decimal digits_fuel
render-length = omega arith

convert_node_to_buf-render_example :
    convert_node_to_buf 2048 10 4 two_lists
    ≡ ok (render (second_node ∷ []), length (render (second_node ∷ []))) two_lists
convert_node_to_buf-render_example =
    convert_node_to_buf-render 2048 10 two_lists 4 4 (second_node ∷ []) (omega arith) render-length
      second-chain

two_lists-TwoLists : TwoLists two_lists 5 3 4 3 (first_node ∷ []) 4 5 4 (second_node ∷ [])
two_lists-TwoLists = record {
  first = first-chain;
  second = second-chain;
  lists = inl (omega arith);
  first_low = omega arith;
  second_low = omega arith;
  positive = omega arith;
}

node_merge-merge_example :
    (h' : Heap) × (node_merge 10 3 4 two_lists ≡ ok (pos 0) h')
    × NodeChain h' 5 3 h'.brk 3 (merge (first_node ∷ []) (second_node ∷ []))
    × (h'.ips ≡ two_lists.ips)
    × (two_lists.brk ≤ h'.brk)
node_merge-merge_example =
    node_merge-merge 10 two_lists 5 3 4 3 first_node [] 4 5 4 (second_node ∷ []) (omega arith)
      (omega arith) two_lists-TwoLists

node_merge-has_id_example :
    (h' : Heap) × (ks : List Node) × (node_merge 10 3 4 two_lists ≡ ok (pos 0) h')
    × NodeChain h' 5 3 h'.brk 3 ks
    × ((z : ℤ) → has_id z ks ≡ (has_id z (first_node ∷ []) || has_id z (second_node ∷ [])))
node_merge-has_id_example =
    node_merge-has_id 10 two_lists 5 3 4 3 first_node [] 4 5 4 (second_node ∷ []) (omega arith)
      (omega arith) two_lists-TwoLists

pub merged-cells : cells (merge (first_node ∷ []) (second_node ∷ [])) < 30
unfolding merge newest newer unknown
merged-cells = omega arith

pub merged-length : length (render (merge (first_node ∷ []) (second_node ∷ []))) < buf_size
unfolding merge newest newer unknown render decimal digits_fuel
merged-length = omega arith

handle_register-merge_example :
    (h' : Heap) × (handle_register 30 true
        (render (second_node ∷ []))
        (some (render (first_node ∷ [])))
        fresh
      ≡ ok
          (
            some (render (merge (first_node ∷ []) (second_node ∷ []))),
            record {
              type = type_array r_register;
              buf = render (merge (first_node ∷ []) (second_node ∷ []));
              size = pos (length (render (merge (first_node ∷ []) (second_node ∷ []))));
            },
          )
          h')
    × (1 ≤ h'.brk)
handle_register-merge_example =
    handle_register-merge 30 first_node [] (second_node ∷ []) fresh (omega arith) second-fits_buf
      (omega arith) first-fits_file (omega arith) (omega arith) merged-cells merged-length

ip_list_identical-iff_example :
    (b : Bool) × (ip_list_identical 9 1 2 two_lists ≡ ok b two_lists)
    × ((b ≡ true) ↔ ((s : Bytes) → has_ip s (loopback ∷ []) ≡ has_ip s (loopback ∷ [])))
ip_list_identical-iff_example =
    ip_list_identical_iff 9 1 2 (loopback ∷ []) (loopback ∷ []) two_lists (omega arith)
      (omega arith) first_ip-chain second_ip-chain refl refl

node_is_identical-computes_example :
    node_is_identical 9 3 4 two_lists ≡ ok (accepted_as_identical first_node second_node) two_lists
node_is_identical-computes_example =
    node_is_identical-computes 9 3 4 first_node second_node two_lists (omega arith) (omega arith)
      (omega arith) (omega arith) (omega arith) first-held second-held

node_is_identical_itself_example : node_is_identical 9 3 3 two_lists ≡ ok false two_lists
node_is_identical_itself_example =
    node_is_identical_itself 9 3 first_node loopback [] two_lists (omega arith) (omega arith)
      (omega arith) first-held refl

handle_router_refresh-Calls_example :
    (from : Ptr) × (calls : List (Ptr × Ptr)) × (handle_router_refresh 9 (pos 123) 3 two_lists
      ≡ ok calls two_lists)
    × ((two_lists.nodes from).id ≡ pos 123)
    × Calls two_lists from calls (before (pos 123) (first_node ∷ []))
handle_router_refresh-Calls_example =
    handle_router_refresh-Calls 9 (pos 123) 3 4 3 (first_node ∷ []) two_lists (omega arith)
      (omega arith) first-chain refl
