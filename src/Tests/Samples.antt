-- ===== src/Tests/Samples.antt =====
-- Lists of nodes in the shape that InitTest/node_start.c writes, and heaps that hold them.
use vpnp2p.Prelude.{ℕ, ◌≢◌, refl, [], ◌∷◌, pos, arith, ◌<◌, ◌^◌, ◌==◌, if◌then◌else◌}
use vpnp2p.CString.Decimal.{IsShort}
use vpnp2p.CString.{codes, is_int}
use vpnp2p.NodeInfo.Chain.{IpChain, HoldsNode, NodeChain}
use vpnp2p.NodeInfo.Heap.{Ptr, IpCell, NodeCell, Heap}
use vpnp2p.NodeInfo.Parse.BufLines.{buf_limits}
use vpnp2p.NodeInfo.Parse.FileLines.{file_limits}
use vpnp2p.NodeInfo.Parse.ReadIps.{IpFits}
use vpnp2p.NodeInfo.Parse.ReadNodes.{NodeFits, AllNodesFit}
use vpnp2p.NodeInfo.Values.{Ip, Node}

abbrev pub loopback : Ip
loopback = record {
  ip = codes "127.0.0.1";
  type = codes "clientIP";
  s_count = pos 0;
  validity = pos 1;
}

abbrev pub first_node : Node
first_node = record { id = pos 123; node_count = pos 1; reliable = pos 1; ip_list = loopback ∷ [] }

abbrev pub second_node : Node
second_node = record { id = pos 7; node_count = pos 2; reliable = pos 0; ip_list = loopback ∷ [] }

abbrev pub unset_ip : IpCell
unset_ip = record { info = loopback; next_ip = 0 }

abbrev pub unset_node : NodeCell
unset_node = record { id = pos 0; node_count = pos 0; reliable = pos 0; ip_list = 0; next_node = 0 }

-- A later version of the second node.
abbrev pub later_node : Node
later_node = record { id = pos 7; node_count = pos 5; reliable = pos 1; ip_list = loopback ∷ [] }

-- Nothing is allocated.
abbrev pub fresh : Heap
fresh = record { ips = λ p. unset_ip; nodes = λ p. unset_node; brk = 1 }

buf-IsShort : (n : ℕ) → n < 10 ^ 9 → IsShort (pos n)
unfolding IsShort
buf-IsShort n h = h

loopback-fits_buf : IpFits buf_limits loopback
loopback-fits_buf = record {
  ip = record { short = omega arith; no_newline = refl };
  type = record { short = omega arith; no_newline = refl };
  s_count = buf-IsShort 0 (omega arith);
  validity = buf-IsShort 1 (omega arith);
}

ne_nil : (x : Ip) → (x ∷ []) ≢ []
ne_nil x e = cc

fits_buf :
    (i k r : ℕ)
    → i < 10 ^ 9
    → k < 10 ^ 9
    → r < 10 ^ 9
    → NodeFits buf_limits
        (record { id = pos i; node_count = pos k; reliable = pos r; ip_list = loopback ∷ [] })
fits_buf i k r hi hk hr = record {
  id = buf-IsShort i hi;
  node_count = buf-IsShort k hk;
  reliable = buf-IsShort r hr;
  some_ip = ne_nil loopback;
  ip_list = (loopback-fits_buf, tt);
}

pub first-fits_buf : AllNodesFit buf_limits (first_node ∷ [])
first-fits_buf = (fits_buf 123 1 1 (omega arith) (omega arith) (omega arith), tt)

pub second-fits_buf : AllNodesFit buf_limits (second_node ∷ [])
second-fits_buf = (fits_buf 7 2 0 (omega arith) (omega arith) (omega arith), tt)

pub later-fits_buf : AllNodesFit buf_limits (later_node ∷ [])
later-fits_buf = (fits_buf 7 5 1 (omega arith) (omega arith) (omega arith), tt)

loopback-fits_file : IpFits file_limits loopback
unfolding is_int
loopback-fits_file = record {
  ip = record { text = record { short = omega arith; no_newline = refl }; no_tab = refl };
  type = record { text = record { short = omega arith; no_newline = refl }; no_tab = refl };
  s_count = refl;
  validity = refl;
}

pub first-fits_file : AllNodesFit file_limits (first_node ∷ [])
unfolding is_int
first-fits_file = (
  record {
    id = refl;
    node_count = refl;
    reliable = refl;
    some_ip = ne_nil loopback;
    ip_list = (loopback-fits_file, tt);
  },
  tt,
)

pub second-fits_file : AllNodesFit file_limits (second_node ∷ [])
unfolding is_int
second-fits_file = (
  record {
    id = refl;
    node_count = refl;
    reliable = refl;
    some_ip = ne_nil loopback;
    ip_list = (loopback-fits_file, tt);
  },
  tt,
)

pub later-fits_file : AllNodesFit file_limits (later_node ∷ [])
unfolding is_int
later-fits_file = (
  record {
    id = refl;
    node_count = refl;
    reliable = refl;
    some_ip = ne_nil loopback;
    ip_list = (loopback-fits_file, tt);
  },
  tt,
)

-- The first node in a cell, and the second behind it, each with the address in a cell of its own.
abbrev pub two_lists : Heap
two_lists = record {
  ips = λ p. unset_ip;
  nodes = λ p.
      if p == 3
      then record unset_node { id = pos 123; node_count = pos 1; reliable = pos 1; ip_list = 1 }
      else record unset_node { id = pos 7; node_count = pos 2; reliable = pos 0; ip_list = 2 };
  brk = 5;
}

loopback-chain : (p : Ptr) → 0 < p → p < 5 → IpChain two_lists.ips 5 p (loopback ∷ [])
loopback-chain p positive low = (positive, low, refl, refl)

pub first-held : HoldsNode two_lists.ips 5 (two_lists.nodes 3) first_node
first-held = record {
  id = refl;
  node_count = refl;
  reliable = refl;
  ip_list = loopback-chain 1 (omega arith) (omega arith);
}

pub second-held : HoldsNode two_lists.ips 5 (two_lists.nodes 4) second_node
second-held = record {
  id = refl;
  node_count = refl;
  reliable = refl;
  ip_list = loopback-chain 2 (omega arith) (omega arith);
}

pub first-chain : NodeChain two_lists 5 3 4 3 (first_node ∷ [])
first-chain = (omega arith, omega arith, omega arith, first-held, refl)

pub second-chain : NodeChain two_lists 5 4 5 4 (second_node ∷ [])
second-chain = (omega arith, omega arith, omega arith, second-held, refl)

pub first_ip-chain : IpChain two_lists.ips 5 1 (loopback ∷ [])
first_ip-chain = loopback-chain 1 (omega arith) (omega arith)

pub second_ip-chain : IpChain two_lists.ips 5 2 (loopback ∷ [])
second_ip-chain = loopback-chain 2 (omega arith) (omega arith)
