-- ===== src/NodeInfo/Merge/Last.antt =====
-- The last node of a list, and a list that is linked behind it.
use vpnp2p.Prelude.{ℕ, zero, suc, ◌≤◌, ◌<◌, ◌≡◌, ◌≢◌, ap, ◌∙◌, List, [], ◌∷◌, ◌++◌, arith, length}
use vpnp2p.NodeInfo.Access.{not_null, load_node-ok}
use vpnp2p.NodeInfo.Chain.{HoldsNode_eq, HoldsNode_linked, NodeChain, NodeChain-cons}
use vpnp2p.NodeInfo.Heap.{Ptr, null, NodeCell, Heap, ok}
use vpnp2p.NodeInfo.Merge.Defs.{find_last}
use vpnp2p.NodeInfo.Values.{Node}

-- `last` is the last cell of the list from `p`: a list at `q` that is linked behind it continues it.
pub record IsLast (h : Heap) (top lo hi p : Ptr) (ns : List Node) (last : Ptr) : Type 0 where
  pub positive : 0 < last
  pub above : lo ≤ last
  pub below : last < hi
  pub continues :
      (g : Heap) (end q : Ptr) (ms : List Node)
      → hi ≤ end
      → g.ips ≡ h.ips
      → ((a : Ptr) → lo ≤ a → a < hi → a ≢ last → g.nodes a ≡ h.nodes a)
      → g.nodes last ≡ record (h.nodes last) { next_node = q }
      → NodeChain g top hi end q ms
      → NodeChain g top lo end p (ns ++ ms)

find_last_end :
    (fuel : ℕ) (p : Ptr) (h : Heap)
    → 0 < p
    → p < h.brk
    → (h.nodes p).next_node ≡ null
    → find_last (suc fuel) p h ≡ ok p h
unfolding find_last
find_last_end fuel p h positive low e = rw (load_node-ok p h positive low, e)

find_last_step :
    (fuel : ℕ) (p : Ptr) (h : Heap)
    → 0 < p
    → p < h.brk
    → 0 < (h.nodes p).next_node
    → find_last (suc fuel) p h ≡ find_last fuel (h.nodes p).next_node h
unfolding find_last
find_last_step fuel p h positive low more =
    rw (load_node-ok p h positive low, not_null (h.nodes p).next_node more)

NodeChain-lower :
    (g : Heap) (top lo lo' hi q : Ptr) (ms : List Node)
    → lo' ≤ lo
    → NodeChain g top lo hi q ms
    → NodeChain g top lo' hi q ms
NodeChain-lower g top lo lo' hi q [] down c = c
NodeChain-lower g top lo lo' hi q (m ∷ ms) down (positive, above, below, v, rest) =
    (positive, omega arith, below, v, rest)

pub find_last-IsLast :
    (fuel : ℕ) (p : Ptr) (n : Node) (ns : List Node) (top lo hi : Ptr) (h : Heap)
    → length ns < fuel
    → hi ≤ h.brk
    → NodeChain h top lo hi p (n ∷ ns)
    → (last : Ptr) × (find_last fuel p h ≡ ok last h) × IsLast h top lo hi p (n ∷ ns) last
find_last-IsLast zero p n ns top lo hi h room up chain = elim room [ ]
find_last-IsLast (suc fuel) p n [] top lo hi h room up (positive, above, below, v, end) = (
  p,
  find_last_end fuel p h positive (omega arith) end,
  record {
    positive = positive;
    above = above;
    below = below;
    continues = λ g end q ms le ips same cell chain.
        NodeChain-cons g top lo end p q n ms positive above (omega arith)
          (HoldsNode_linked h.ips g.ips top (h.nodes p) (g.nodes p) q n ips cell v)
          (ap (λ (x : NodeCell). x.next_node) cell)
          (NodeChain-lower g top hi (suc p) end q ms (omega arith) chain);
  },
)
find_last-IsLast (suc fuel) p n (m ∷ ns) top lo hi h room up (positive, above, below, v, rest) =
    let (last, run, e) =
      find_last-IsLast fuel (h.nodes p).next_node m ns top (suc p) hi h (omega arith) up rest in
    (
      last,
      find_last_step fuel p h positive (omega arith) rest.0 ∙ run,
      record {
        positive = e.positive;
        above = omega arith;
        below = e.below;
        continues = λ g end q ms le ips same cell chain.
            let kept : g.nodes p ≡ h.nodes p = same p above below (omega arith) in
            NodeChain-cons g top lo end p (h.nodes p).next_node n (m ∷ (ns ++ ms)) positive above
              (omega arith) (HoldsNode_eq h.ips g.ips top (h.nodes p) (g.nodes p) n ips kept v)
              (ap (λ (x : NodeCell). x.next_node) kept)
              (e.continues g end q ms le ips (λ a l u ne. same a (omega arith) u ne) cell chain);
      },
    )
