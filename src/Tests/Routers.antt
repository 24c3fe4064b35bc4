-- ===== src/Tests/Routers.antt =====
-- The theorems on `router_refresh` and on the width test, at two addresses.
use vpnp2p.Prelude.{
  ℕ, ◌+◌, ◌<◌, ◌≡◌, refl, take, true, none, List, [], ◌∷◌, pos, replicate, arith, ◌==◌,
  if◌then◌else◌,
}
use vpnp2p.CString.{Bytes, str_eq}
use vpnp2p.Message
use vpnp2p.Message.Transfer.{all_succeed, arrive}
use vpnp2p.Message.WidthTest.{send_file_over_socket}
use vpnp2p.Message.{
  width_test, with_nul, htonl_bytes, send_msg_over_socket, send_buf, recv_msg_over_socket,
  recv_pieces, recv_file, c_string, holds,
}
use vpnp2p.NodeInfo.Chain.{IpChain}
use vpnp2p.NodeInfo.Heap.{Ptr, Heap, ok}
use vpnp2p.Pairs.{done, Objects, infinite}
use vpnp2p.Router.Clock.{measured}
use vpnp2p.Router.Laws.{Routes, router_refresh-Routes}
use vpnp2p.Router.Measure.{Answers}
use vpnp2p.Router.{Machine, Exchange, Probe, check_received, router_refresh}
use vpnp2p.Server.WidthTest.{thread_receive_pack-width_test}
use vpnp2p.Server.{ignored, thread_receive_pack, reply_regular_update}
use vpnp2p.Message.{regular_update_return}
use vpnp2p.Table.{Table, Table_length}
use vpnp2p.Tests.Samples.{loopback, unset_ip, unset_node, fresh}

-- A node with two addresses.
abbrev routed : Heap
routed = record {
  ips = λ p. if p == 2 then record { info = loopback; next_ip = 3 } else unset_ip;
  nodes = λ p. record unset_node { id = pos 7; ip_list = 2 };
  brk = 4;
}

routed-chain : IpChain routed.ips 4 2 (loopback ∷ loopback ∷ [])
routed-chain = (omega arith, omega arith, refl, (omega arith, omega arith, refl, refl))

abbrev machine : Machine
machine = record { room = λ n. n + 16; behind = replicate 9 0; big_buf = 1 ∷ [] }

-- An exchange in which a width test arrives, from the tick 5 on.
abbrev exchange_of : ℕ → Exchange
exchange_of d = record {
  opens = true;
  connects = true;
  succeeds = all_succeed;
  answers = arrive (htonl_bytes 1 ∷ with_nul width_test ∷ (0 ∷ []) ∷ []);
  start = pos 5;
  finish = pos (5 + d);
}

answered : (d : ℕ) → check_received (recv_msg_over_socket (exchange_of d).answers) ≡ done tt
unfolding recv_msg_over_socket recv_pieces recv_file holds c_string str_eq
answered d = refl

abbrev probe_of : ℕ → ℕ → Probe
probe_of d₁ d₂ = record { update = exchange_of d₁; width = exchange_of d₂; unset_size = pos 15 }

abbrev probes : ℕ → Probe
probes i = if i == 0 then probe_of 100 612 else probe_of 50 50

probe-Answers : (d₁ d₂ : ℕ) → d₁ < 1000 → d₂ < 1000 → Answers machine (probe_of d₁ d₂) d₁ d₂
unfolding send_msg_over_socket send_buf send_file_over_socket
probe-Answers d₁ d₂ low low₂ = record {
  update = record {
    opens = refl;
    connects = refl;
    sends = refl;
    received = answered d₁;
    begin = 5;
    start = refl;
    finish = refl;
    short = omega arith;
  };
  width = record {
    opens = refl;
    connects = refl;
    sends = refl;
    received = answered d₂;
    begin = 5;
    start = refl;
    finish = refl;
    short = omega arith;
  };
}

abbrev no_objects : Objects
no_objects = record {
  pairs = λ p. record { from_node = 0; to_node = 0; to_ip = 0 };
  widths = λ p. record { delay = pos 0; width = infinite };
  brk = 1;
}

router_refresh-Routes_example :
    (value : Ptr) × (o' : Objects) × (t' : Table) × (router_refresh machine 9 routed 1 3 probes
        no_objects
      ≡ done (value, o', t'))
    × (Table_length t' ≡ pos 2)
    × Routes routed.ips 1 3 o' t' 2 ((100, 612) ∷ (50, 50) ∷ [])
    × (o'.widths value ≡ measured 50 50)
router_refresh-Routes_example =
    router_refresh-Routes machine routed 1 3 probes (omega arith) 9 loopback (loopback ∷ []) 100 612
      ((50, 50) ∷ []) no_objects (omega arith) (omega arith) (omega arith) (omega arith)
      (omega arith) refl routed-chain
      (
        probe-Answers 100 612 (omega arith) (omega arith),
        (probe-Answers 50 50 (omega arith) (omega arith), tt),
      )

abbrev server_pieces : List Bytes
unfolding reply_regular_update
server_pieces =
    htonl_bytes 22 ∷ take 20 reply_regular_update.type ∷ with_nul regular_update_return ∷ []

abbrev served_probe : Probe
served_probe = record (probe_of 100 612) {
  update = record (exchange_of 100) { answers = arrive server_pieces };
}

thread_receive_pack-width_test_example :
    (pieces : List Bytes) × (send_file_over_socket (replicate 9 0) (1 ∷ []) all_succeed
      ≡ Message.done (pieces, pos 0))
    × (thread_receive_pack 9 true true (arrive pieces) none fresh ≡ ok ignored fresh)
thread_receive_pack-width_test_example =
    thread_receive_pack-width_test 9 true none (replicate 9 0) (1 ∷ []) fresh (omega arith)
