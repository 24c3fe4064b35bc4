-- ===== src/Tests/Orders.antt =====
-- Two orders of registrations at server.c.
use vpnp2p.Prelude.{◌<◌, ◌≡◌, true, some, List, [], ◌∷◌, map, arith, length}
use mathlib.Core.List.Perm
use vpnp2p.CString.{decimal, digits_fuel}
use vpnp2p.Message.{buf_size}
use vpnp2p.NodeInfo.Heap.{Heap, ok}
use vpnp2p.NodeInfo.Merge.Spec.{newer, newest, unknown, merge}
use vpnp2p.NodeInfo.Print.Render.{render, cells}
use vpnp2p.NodeInfo.Values.{Node}
use vpnp2p.Server.Arrivals.{registered, Arrival, registers, other, received}
use vpnp2p.Message.{failed}
use vpnp2p.Server.Loop.{receive_loop, CanRegister}
use vpnp2p.Server.Order.{HasLatest, Agree, receive_loop-Perm}
use vpnp2p.Tests.Lists.{merged-cells, merged-length}
use vpnp2p.Tests.Samples.{
  first_node, second_node, later_node, fresh, second-fits_buf, later-fits_buf, first-fits_file,
  second-fits_file, later-fits_file,
}

later-cells : cells (merge (first_node ∷ []) (later_node ∷ [])) < 30
unfolding merge newest newer unknown
later-cells = omega arith

later-length : length (render (merge (first_node ∷ []) (later_node ∷ []))) < buf_size
unfolding merge newest newer unknown render decimal digits_fuel
later-length = omega arith

both-cells :
    (cells (merge (merge (first_node ∷ []) (second_node ∷ [])) (later_node ∷ [])) < 30)
    × (cells (merge (merge (first_node ∷ []) (later_node ∷ [])) (second_node ∷ [])) < 30)
unfolding merge newest newer unknown
both-cells = (omega arith, omega arith)

both-length :
    (length (render (merge (merge (first_node ∷ []) (second_node ∷ [])) (later_node ∷ [])))
      < buf_size)
    × (length (render (merge (merge (first_node ∷ []) (later_node ∷ [])) (second_node ∷ [])))
        < buf_size)
unfolding merge newest newer unknown render decimal digits_fuel
both-length = (omega arith, omega arith)

merged_lengths :
    (length (merge (first_node ∷ []) (second_node ∷ [])) < 30)
    × (length (merge (first_node ∷ []) (later_node ∷ [])) < 30)
unfolding merge newest newer unknown
merged_lengths = (omega arith, omega arith)

second_first : CanRegister 30 (first_node ∷ []) ((second_node ∷ []) ∷ (later_node ∷ []) ∷ [])
second_first = (
  (second-fits_buf, second-fits_file),
  omega arith,
  omega arith,
  omega arith,
  merged-cells,
  merged-length,
  (
    (later-fits_buf, later-fits_file),
    omega arith,
    merged_lengths.0,
    omega arith,
    both-cells.0,
    both-length.0,
    tt,
  ),
)

later_first : CanRegister 30 (first_node ∷ []) ((later_node ∷ []) ∷ (second_node ∷ []) ∷ [])
later_first = (
  (later-fits_buf, later-fits_file),
  omega arith,
  omega arith,
  omega arith,
  later-cells,
  later-length,
  (
    (second-fits_buf, second-fits_file),
    omega arith,
    merged_lengths.1,
    omega arith,
    both-cells.1,
    both-length.1,
    tt,
  ),
)

-- A failed call between the registrations, and the other order.
abbrev arrivals : List Arrival
arrivals = registers (second_node ∷ []) ∷ other failed ∷ registers (later_node ∷ []) ∷ []

abbrev arrivals' : List Arrival
arrivals' = registers (later_node ∷ []) ∷ registers (second_node ∷ []) ∷ []

receive_loop-Perm_example :
    (h' g' : Heap) × (ks js : List Node) × (receive_loop 30 true
        (map received arrivals)
        (some (render (first_node ∷ [])))
        fresh
      ≡ ok (some (render ks)) h')
    × (receive_loop 30 true (map received arrivals') (some (render (first_node ∷ []))) fresh
        ≡ ok (some (render js)) g')
    × HasLatest ks (first_node ∷ []) (registered arrivals)
    × Agree ks js
receive_loop-Perm_example =
    receive_loop-Perm 30 first_node [] arrivals arrivals' fresh fresh (omega arith) (omega arith)
      first-fits_file (tt, tt) tt second_first later_first
      (Perm.swap (later_node ∷ []) (second_node ∷ []) [])
