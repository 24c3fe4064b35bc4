-- ===== src/Server/Routes.antt =====
-- `handle_router_refresh` of server.c: to which nodes it calls `router_refresh`.
use vpnp2p.Prelude.{
  ℕ, zero, suc, ◌≤◌, ◌<◌, ◌≡◌, refl, ◌∙◌, true, Option, none, some, List, [], ◌∷◌, ℤ, eq_ℤ,
  eq_ℤ_iff, arith, ◌==◌, if◌then◌else◌, length, Bool-cases, inl, inr,
}
use vpnp2p.NodeInfo.Access.{not_null, load_node-ok}
use vpnp2p.NodeInfo.Chain.{HoldsNode, NodeChain}
use vpnp2p.NodeInfo.Heap.{
  Ptr, null, Heap, Cmd, ok, pure, fail, ◌>>=◌, out_of_fuel, indeterminate, load_node,
}
use vpnp2p.NodeInfo.Merge.Spec.{has_id}
use vpnp2p.NodeInfo.Values.{Node}

-- The first loop; `none` leaves `fromNode` uninitialised.
unfoldable pub find_local : ℕ → ℤ → Ptr → Cmd (Option Ptr)
find_local zero id ptr = fail out_of_fuel
find_local (suc fuel) id ptr = if ptr == null then pure none else do
  c ← load_node ptr
  if eq_ℤ c.id id then pure (some ptr) else find_local fuel id c.next_node

-- The second loop: the calls `router_refresh(fromNode, ptr)`.
unfoldable pub refresh_nodes : ℕ → ℤ → Option Ptr → Ptr → Cmd (List (Ptr × Ptr))
refresh_nodes zero id from ptr = fail out_of_fuel
refresh_nodes (suc fuel) id none ptr =
    if ptr == null
    then pure []
    else do c ← load_node ptr; if eq_ℤ c.id id then pure [] else fail indeterminate
refresh_nodes (suc fuel) id (some from) ptr = if ptr == null then pure [] else do
  c ← load_node ptr
  if eq_ℤ c.id id
      then pure []
      else (do rest ← refresh_nodes fuel id (some from) c.next_node; pure ((from, ptr) ∷ rest))

unfoldable pub handle_router_refresh : ℕ → ℤ → Ptr → Cmd (List (Ptr × Ptr))
unfolding find_local refresh_nodes
handle_router_refresh fuel local_node_id local_node = do
  from ← find_local fuel local_node_id local_node
  refresh_nodes fuel local_node_id from local_node

-- The nodes in front of the first one with that id.
abbrev pub before : ℤ → List Node → List Node
before z [] = []
before z (n ∷ ns) = let rest = before z ns in if eq_ℤ n.id z then [] else n ∷ rest

find_local-some :
    (fuel : ℕ) (z : ℤ) (lo hi p : Ptr) (ns : List Node) (h : Heap)
    → length ns < fuel
    → hi ≤ h.brk
    → NodeChain h h.brk lo hi p ns
    → has_id z ns ≡ true
    → (from : Ptr) × (find_local fuel z p h ≡ ok (some from) h) × ((h.nodes from).id ≡ z)
unfolding find_local
find_local-some zero z lo hi p ns h room up c m = elim room [ ]
find_local-some (suc fuel) z lo hi p [] h room up c m = cc
find_local-some (suc fuel) z lo hi p (n ∷ ns) h room up (positive, above, low, v, rest) m =
    elim (Bool-cases (eq_ℤ n.id z)) [
      | inl q ↦ (
        p,
        rw (not_null p positive, load_node-ok p h positive (omega arith), v.id, q) refl,
        v.id ∙ (eq_ℤ_iff n.id z).0 q,
      )
      | inr q ↦
          let (from, run, e) =
            find_local-some fuel z (suc p) hi (h.nodes p).next_node ns h (omega arith) up rest
              (ground arith) in
          (from, rw (not_null p positive, load_node-ok p h positive (omega arith), v.id, q) run, e)
    ]

-- The calls from one node to the nodes of a list, in their order.
abbrev pub Calls : Heap → Ptr → List (Ptr × Ptr) → List Node → Type 0
Calls h from [] [] = Unit {0}
Calls h from ((a, b) ∷ calls) (n ∷ ns) =
    (a ≡ from) × HoldsNode h.ips h.brk (h.nodes b) n × Calls h from calls ns
Calls h from _ _ = ⊥

refresh_nodes-Calls :
    (fuel : ℕ) (z : ℤ) (lo hi from p : Ptr) (ns : List Node) (h : Heap)
    → length ns < fuel
    → hi ≤ h.brk
    → NodeChain h h.brk lo hi p ns
    → (calls : List (Ptr × Ptr)) × (refresh_nodes fuel z (some from) p h ≡ ok calls h)
      × Calls h from calls (before z ns)
unfolding refresh_nodes
refresh_nodes-Calls zero z lo hi from p ns h room up c = elim room [ ]
refresh_nodes-Calls (suc fuel) z lo hi from p [] h room up c = ([], rw c refl, tt)
refresh_nodes-Calls (suc fuel) z lo hi from p (n ∷ ns) h room up (positive, above, low, v, rest) =
    elim (Bool-cases (eq_ℤ n.id z)) [
      | inl q ↦ (
        [],
        rw (not_null p positive, load_node-ok p h positive (omega arith), v.id, q) refl,
        rw q tt,
      )
      | inr q ↦
          let (calls, run, e) =
            refresh_nodes-Calls fuel z (suc p) hi from (h.nodes p).next_node ns h (omega arith) up
              rest in
          (
            (from, p) ∷ calls,
            rw (not_null p positive, load_node-ok p h positive (omega arith), v.id, q)
                (rw run refl),
            rw q (refl, v, e),
          )
    ]

-- In a list that has the local node, and on fuel that exceeds it, `handle_router_refresh` calls
-- `router_refresh` from a node with the local id to the nodes in front of the first such node, in
-- their order, and to no others.
pub handle_router_refresh-Calls :
    (fuel : ℕ) (z : ℤ) (lo hi p : Ptr) (ns : List Node) (h : Heap)
    → length ns < fuel
    → hi ≤ h.brk
    → NodeChain h h.brk lo hi p ns
    → has_id z ns ≡ true
    → (from : Ptr) × (calls : List (Ptr × Ptr)) × (handle_router_refresh fuel z p h ≡ ok calls h)
      × ((h.nodes from).id ≡ z)
      × Calls h from calls (before z ns)
unfolding handle_router_refresh
handle_router_refresh-Calls fuel z lo hi p ns h room up c m =
    let (from, found, e) = find_local-some fuel z lo hi p ns h room up c m in
    let (calls, run, d) = refresh_nodes-Calls fuel z lo hi from p ns h room up c in
    (from, calls, rw found run, e, d)
