-- ===== src/Tests/Starts.antt =====
-- The theorem on InitTest/node_start.c, at one address.
use vpnp2p.Prelude.{◌≡◌, refl, true, false, none, some, [], ◌∷◌, arith}
use vpnp2p.CString.{Bytes, codes, is_int}
use vpnp2p.NodeInfo.Heap.{Ptr, Heap, ok}
use vpnp2p.NodeInfo.Parse.FileLines.{file_limits}
use vpnp2p.NodeInfo.Parse.ReadNodes.{AllNodesFit}
use vpnp2p.NodeInfo.Parse.{file2struct}
use vpnp2p.NodeInfo.RoundTrip.{Builds}
use vpnp2p.NodeInfo.Values.{Node}
use vpnp2p.Start.File.{started_node, start-file2struct}
use vpnp2p.Start.{start}
use vpnp2p.Tests.Samples.{loopback, fresh}

abbrev started : Node
started = started_node 41 (codes "10.0.0.5") (codes "47.99.47.195") loopback loopback

started-fits : AllNodesFit file_limits (started ∷ [])
unfolding is_int
started-fits = (
  record {
    id = refl;
    node_count = refl;
    reliable = refl;
    some_ip = λ e. cc;
    ip_list = (
      record {
        ip = record { text = record { short = omega arith; no_newline = refl }; no_tab = refl };
        type = record { text = record { short = omega arith; no_newline = refl }; no_tab = refl };
        s_count = refl;
        validity = refl;
      },
      (
        record {
          ip = record { text = record { short = omega arith; no_newline = refl }; no_tab = refl };
          type = record { text = record { short = omega arith; no_newline = refl }; no_tab = refl };
          s_count = refl;
          validity = refl;
        },
        tt,
      ),
    );
  },
  tt,
)

start-file2struct_example :
    (text : Bytes) × (h' : Heap) × (p : Ptr) × (g' : Heap) × (start 9 true 41
        (some (codes "10.0.0.5") ∷ none ∷ [])
        (some (codes "47.99.47.195"))
        false
        none
        fresh
      ≡ ok (some text) h')
    × (file2struct (some text) fresh ≡ ok p g')
    × Builds fresh (started ∷ []) p g'
start-file2struct_example =
    start-file2struct 41 (codes "10.0.0.5") (codes "47.99.47.195") [] fresh (omega arith)
      (omega arith) (omega arith) refl 9 false fresh (omega arith) (omega arith) started-fits
