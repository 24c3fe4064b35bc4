-- ===== src/Server/Order.antt =====
-- Two runs of the loop of `thread_receive_pack` of server.c, on the same registrations in different
-- orders.
use vpnp2p.Prelude.{ℕ, ◌<◌, ◌≡◌, true, some, List, ◌∷◌, map, ℤ}
use mathlib.Core.List.{Perm}
use vpnp2p.NodeInfo.Heap.{Heap, ok}
use vpnp2p.NodeInfo.Merge.Spec.{merge_all}
use vpnp2p.NodeInfo.Merge.Versions.{version, latest_all, version-merge_all, version-Perm}
use vpnp2p.NodeInfo.Parse.FileLines.{file_limits}
use vpnp2p.NodeInfo.Parse.ReadNodes.{AllNodesFit}
use vpnp2p.NodeInfo.Print.Render.{render}
use vpnp2p.NodeInfo.Values.{Node}
use vpnp2p.Server.Arrivals.{Arrival, received, registered, OthersPassBy, receive_loop-registered}
use vpnp2p.Server.Loop.{receive_loop, CanRegister}

-- The same nodes, each in the same latest version. Two lists in which the nodes have different orders
-- agree too.
abbrev pub Agree : List Node → List Node → Type 0
Agree ns ms = (z : ℤ) → version z ns ≡ version z ms

-- Each node in the largest count that it has in the first list or in one of the others.
abbrev pub HasLatest : List Node → List Node → List (List Node) → Type 0
HasLatest ks ns mss = (z : ℤ) → version z ks ≡ latest_all z (version z ns) mss

-- Two servers start from the same file, and what arrives at them registers the same lists, in any two
-- orders in which they have room for them; the other arrivals failed or are no registrations. Then
-- both end with the texts of lists that have the same nodes in the same versions, which are the latest
-- of the file and the registrations.
pub receive_loop-Perm :
    (fuel : ℕ) (n : Node) (ns : List Node) (arrivals arrivals' : List Arrival) (h g : Heap)
    → 0 < h.brk
    → 0 < g.brk
    → AllNodesFit file_limits (n ∷ ns)
    → OthersPassBy arrivals
    → OthersPassBy arrivals'
    → CanRegister fuel (n ∷ ns) (registered arrivals)
    → CanRegister fuel (n ∷ ns) (registered arrivals')
    → Perm (registered arrivals) (registered arrivals')
    → (h' g' : Heap) × (ks js : List Node) × (receive_loop fuel true
          (map received arrivals)
          (some (render (n ∷ ns)))
          h
        ≡ ok (some (render ks)) h')
      × (receive_loop fuel true (map received arrivals') (some (render (n ∷ ns))) g
          ≡ ok (some (render js)) g')
      × HasLatest ks (n ∷ ns) (registered arrivals)
      × Agree ks js
receive_loop-Perm fuel n ns arrivals arrivals' h g positive positive₂ fits pass pass₂ can can₂ p =
    let mss = registered arrivals in
    let mss' = registered arrivals' in
    let (h', run) = receive_loop-registered fuel n ns arrivals h positive fits pass can in
    let (g', run₂) = receive_loop-registered fuel n ns arrivals' g positive₂ fits pass₂ can₂ in
    (
      h',
      g',
      merge_all (n ∷ ns) mss,
      merge_all (n ∷ ns) mss',
      run,
      run₂,
      (λ z. version-merge_all z (n ∷ ns) mss),
      λ z. version-Perm z (n ∷ ns) mss mss' p,
    )
