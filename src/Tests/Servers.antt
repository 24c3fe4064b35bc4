-- ===== src/Tests/Servers.antt =====
-- The theorems on a turn of `thread_receive_pack` of server.c, at lists of one node.
use vpnp2p.Prelude.{◌≡◌, refl, true, false, some, none, List, [], ◌∷◌, map, pos, length, arith, ◌<◌}
use vpnp2p.CString.{Bytes, codes, decimal, digits_fuel}
use vpnp2p.Message.Bytes.{has_nul}
use vpnp2p.Message.Transfer.{all_succeed, arrive}
use vpnp2p.Message.{buf_size, done, r_register, register, send_msg_over_socket}
use vpnp2p.NodeInfo.Heap.{Heap, ok}
use vpnp2p.NodeInfo.Merge.Spec.{merge, merge_all}
use vpnp2p.NodeInfo.Print.Render.{render}
use vpnp2p.Server.Arrivals.{
  Arrival, registers, other, received, registered, PassesBy, receive_loop-registered,
}
use vpnp2p.Server.Loop.{receive_loop, CanRegister}
use vpnp2p.Server.{dispatch, regular_update_handler}
use vpnp2p.Message.{holds, regular_update, with_nul, failed, c_string, Message, done}
use vpnp2p.CString.{str_eq}
use vpnp2p.Server.Turn.{
  request, join_register, thread_receive_pack-register, thread_receive_pack-ignores,
}
use vpnp2p.Server.{replied, ignored, thread_receive_pack, type_array}
use vpnp2p.Tests.Lists.{merged-cells, merged-length}
use vpnp2p.Tests.Samples.{
  first_node, second_node, fresh, second-fits_buf, first-fits_file, second-fits_file,
}

pub second-no_nul : has_nul (render (second_node ∷ [])) ≡ false
unfolding render decimal digits_fuel
second-no_nul = refl

pub second-short : length (render (second_node ∷ [])) < buf_size
unfolding render decimal digits_fuel
second-short = omega arith

thread_receive_pack-register_example :
    (pieces : List Bytes) × (h' : Heap) × (send_msg_over_socket all_succeed
        (request register (render (second_node ∷ [])))
      ≡ done (pieces, pos 0))
    × (thread_receive_pack 30 true true (arrive pieces) (some (render (first_node ∷ []))) fresh
        ≡ ok
            (replied (some (render (merge (first_node ∷ []) (second_node ∷ [])))) (record {
              type = type_array r_register;
              buf = render (merge (first_node ∷ []) (second_node ∷ []));
              size = pos (length (render (merge (first_node ∷ []) (second_node ∷ []))));
            }))
            h')
thread_receive_pack-register_example =
    thread_receive_pack-register 30 first_node [] (second_node ∷ []) fresh (omega arith)
      second-fits_buf (omega arith) first-fits_file (omega arith) (omega arith) merged-cells
      merged-length second-no_nul second-short

thread_receive_pack-ignores_example :
    (pieces : List Bytes) × (send_msg_over_socket all_succeed (request join_register (codes "NODE"))
      ≡ done (pieces, pos 0))
    × (thread_receive_pack 30 true true (arrive pieces) none fresh ≡ ok ignored fresh)
thread_receive_pack-ignores_example =
    thread_receive_pack-ignores 30 none (codes "NODE") fresh refl (omega arith)

can_register : CanRegister 30 (first_node ∷ []) ((second_node ∷ []) ∷ [])
can_register = (
  (second-fits_buf, second-fits_file),
  omega arith,
  omega arith,
  omega arith,
  merged-cells,
  merged-length,
  tt,
)

-- A message that asks for something else.
abbrev update_request : Message
update_request = record { type = with_nul regular_update; buf = []; size = pos 1 }

update-dispatch : dispatch update_request ≡ regular_update_handler
unfolding dispatch holds c_string str_eq
update-dispatch = refl

update-PassesBy : PassesBy (done update_request)
update-PassesBy e = let other = update-dispatch in cc

abbrev arrivals : List Arrival
arrivals = other failed ∷ registers (second_node ∷ []) ∷ other (done update_request) ∷ []

receive_loop-registered_example :
    (h' : Heap) × (receive_loop 30 true
        (map received arrivals)
        (some (render (first_node ∷ [])))
        fresh
      ≡ ok (some (render (merge_all (first_node ∷ []) (registered arrivals)))) h')
receive_loop-registered_example =
    receive_loop-registered 30 first_node [] arrivals fresh (omega arith) first-fits_file
      (tt, (update-PassesBy, tt)) can_register
