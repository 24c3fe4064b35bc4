-- ===== src/NodeInfo/Chain.antt =====
-- What a list in the heap stands for.
use vpnp2p.Prelude.{suc, ◌≤◌, ◌<◌, ◌≡◌, List, [], ◌∷◌, arith}
use vpnp2p.NodeInfo.Heap.{Ptr, null, IpCell, NodeCell, Heap}
use vpnp2p.NodeInfo.Values.{Ip, Node}

-- From `p` the pointers `next_ip` lead through cells below `hi`, which hold `xs`, to `NULL`.
abbrev pub IpChain : (Ptr → IpCell) → Ptr → Ptr → List Ip → Type 0
IpChain f hi p [] = p ≡ null
IpChain f hi p (x ∷ xs) = (0 < p) × (p < hi) × ((f p).info ≡ x) × IpChain f hi (f p).next_ip xs

-- The fields of a node's cell, the list of addresses included.
pub record HoldsNode (f : Ptr → IpCell) (hi : Ptr) (c : NodeCell) (n : Node) : Type 0 where
  pub id : c.id ≡ n.id
  pub node_count : c.node_count ≡ n.node_count
  pub reliable : c.reliable ≡ n.reliable
  pub ip_list : IpChain f hi c.ip_list n.ip_list

-- From `p` the pointers `next_node` lead through cells that hold `ns` to `NULL`. The cells stand at
-- growing addresses from `lo` on, below `hi`, and their addresses below `top`.
abbrev pub NodeChain : Heap → Ptr → Ptr → Ptr → Ptr → List Node → Type 0
NodeChain h top lo hi p [] = p ≡ null
NodeChain h top lo hi p (n ∷ ns) =
    (0 < p)
    × (lo ≤ p)
    × (p < hi)
    × HoldsNode h.ips top (h.nodes p) n
    × NodeChain h top (suc p) hi (h.nodes p).next_node ns

-- A chain below `lo` is a chain below a later `hi` too, in a heap that agrees below `lo`.
pub IpChain-frame :
    (f g : Ptr → IpCell) (lo hi p : Ptr) (xs : List Ip)
    → lo ≤ hi
    → ((a : Ptr) → a < lo → g a ≡ f a)
    → IpChain f lo p xs
    → IpChain g hi p xs
IpChain-frame f g lo hi p [] up same c = c
IpChain-frame f g lo hi p (x ∷ xs) up same (positive, low, info, rest) =
    rw (same p low)
      (positive, omega arith, info, IpChain-frame f g lo hi (f p).next_ip xs up same rest)

pub HoldsNode_frame :
    (f g : Ptr → IpCell) (lo hi : Ptr) (c : NodeCell) (n : Node)
    → lo ≤ hi
    → ((a : Ptr) → a < lo → g a ≡ f a)
    → HoldsNode f lo c n
    → HoldsNode g hi c n
HoldsNode_frame f g lo hi c n up same v = record {
  id = v.id;
  node_count = v.node_count;
  reliable = v.reliable;
  ip_list = IpChain-frame f g lo hi c.ip_list n.ip_list up same v.ip_list;
}

-- A chain is the same in a heap that agrees on the addresses below `top` and on the cells from `lo`
-- to `hi`, and it may be given wider bounds.
pub NodeChain-frame :
    (h g : Heap) (top lo hi top' lo' hi' p : Ptr) (ns : List Node)
    → top ≤ top'
    → lo' ≤ lo
    → hi ≤ hi'
    → ((a : Ptr) → a < top → g.ips a ≡ h.ips a)
    → ((a : Ptr) → lo ≤ a → a < hi → g.nodes a ≡ h.nodes a)
    → NodeChain h top lo hi p ns
    → NodeChain g top' lo' hi' p ns
NodeChain-frame h g top lo hi top' lo' hi' p [] raise down up ips nodes c = c
NodeChain-frame h g top lo hi top' lo' hi' p (n ∷ ns) raise down up ips nodes
      (positive, above, low, node, rest) =
    rw (nodes p above low) (
      positive,
      omega arith,
      omega arith,
      HoldsNode_frame h.ips g.ips top top' (h.nodes p) n raise ips node,
      NodeChain-frame h g top (suc p) hi top' (suc p) hi' (h.nodes p).next_node ns raise
          (omega arith) up ips (λ a l u. nodes a (omega arith) u) rest,
    )

pub IpChain-cons :
    (f : Ptr → IpCell) (hi p q : Ptr) (x : Ip) (xs : List Ip)
    → 0 < p
    → p < hi
    → (f p).info ≡ x
    → (f p).next_ip ≡ q
    → IpChain f hi q xs
    → IpChain f hi p (x ∷ xs)
IpChain-cons f hi p q x xs positive low info next rest = (positive, low, info, rw next rest)

pub NodeChain-cons :
    (h : Heap) (top lo hi p q : Ptr) (n : Node) (ns : List Node)
    → 0 < p
    → lo ≤ p
    → p < hi
    → HoldsNode h.ips top (h.nodes p) n
    → (h.nodes p).next_node ≡ q
    → NodeChain h top (suc p) hi q ns
    → NodeChain h top lo hi p (n ∷ ns)
NodeChain-cons h top lo hi p q n ns positive above low holds next rest =
    (positive, above, low, holds, rw next rest)

-- The same cell, with the same addresses below it.
pub HoldsNode_eq :
    (f g : Ptr → IpCell) (top : Ptr) (c d : NodeCell) (n : Node)
    → g ≡ f
    → d ≡ c
    → HoldsNode f top c n
    → HoldsNode g top d n
HoldsNode_eq f g top c d n ips cell v = rw (ips, cell) v

-- The link behind a node is not among the fields that it holds.
pub HoldsNode_linked :
    (f g : Ptr → IpCell) (top : Ptr) (c d : NodeCell) (q : Ptr) (n : Node)
    → g ≡ f
    → d ≡ record c { next_node = q }
    → HoldsNode f top c n
    → HoldsNode g top d n
HoldsNode_linked f g top c d q n ips cell v =
    rw (ips, cell)
      (record { id = v.id; node_count = v.node_count; reliable = v.reliable; ip_list = v.ip_list })
