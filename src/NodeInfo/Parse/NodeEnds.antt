-- ===== src/NodeInfo/Parse/NodeEnds.antt =====
-- The lines `ip_list` and `end_node` of a node.
use vpnp2p.Prelude.{◌+◌, ◌<◌, ◌≡◌, ◌≢◌, refl, ap, ◌∙◌, arith}
use vpnp2p.NodeInfo.Access.{load_node-ok}
use vpnp2p.NodeInfo.Heap.{Ptr, null, Heap, ok, malloc}
use vpnp2p.NodeInfo.Parse.Defs.{Cursor, start_ips, end_node}
use vpnp2p.NodeInfo.Parse.ReadIps.{AtIp}
use vpnp2p.NodeInfo.Parse.Writes.{
  with_ip, with_node, set_ip_list-ok, set_next_node-ok, set_next_ip-ok,
}

-- The pointers between two nodes: `node_new` is the cell to fill, behind `prev`.
pub record AtNode (c : Cursor) (h : Heap) : Type 0 where
  pub new_positive : 0 < c.node_new
  pub new_low : c.node_new < h.brk
  pub prev_positive : 0 < c.prev
  pub prev_low : c.prev < h.brk
  pub apart : c.prev ≢ c.node_new
  pub linked : (h.nodes c.prev).next_node ≡ c.node_new

-- The line `ip_list` gives the node a fresh cell, with a fresh cell in front of it.
pub record StartsIps (c : Cursor) (h : Heap) (c' : Cursor) (h' : Heap) : Type 0 where
  pub run : start_ips c h ≡ ok c' h'
  pub at : AtIp c' h'
  pub node : h'.nodes c.node_new ≡ record (h.nodes c.node_new) { ip_list = c'.ip_new }
  pub same_nodes : (a : Ptr) → a ≢ c.node_new → h'.nodes a ≡ h.nodes a
  pub same_ips : (a : Ptr) → a < h.brk → h'.ips a ≡ h.ips a
  pub fresh : c'.ip_new ≡ h.brk
  pub node_new : c'.node_new ≡ c.node_new
  pub prev : c'.prev ≡ c.prev
  pub brk : h'.brk ≡ h.brk + 2

pub start_ips-StartsIps :
    (c : Cursor) (h : Heap)
    → 0 < c.node_new
    → c.node_new < h.brk
    → (c' : Cursor) × (h' : Heap) × StartsIps c h c' h'
unfolding start_ips malloc
start_ips-StartsIps c h positive low =
    let p = h.brk in
    let q = h.brk + 1 in
    let h₀ = record h { brk = h.brk + 1 + 1 } in
    let h₁ = with_ip h₀ q (record (h₀.ips q) { next_ip = p }) in
    let h₂ = with_ip h₁ p (record (h₁.ips p) { next_ip = null }) in
    let n = c.node_new in
    let h₃ = with_node h₂ n (record (h₂.nodes n) { ip_list = p }) in
    (
      record c { ip_new = p; ip_header = q },
      h₃,
      record {
        run = rw (
          set_next_ip-ok q h₀ (omega arith) (omega arith) p,
          set_next_ip-ok p h₁ (omega arith) (omega arith) null,
          set_ip_list-ok n h₂ positive (omega arith) p,
        );
        at = record {
          new_positive = omega arith;
          new_low = omega arith;
          header_positive = omega arith;
          header_low = omega arith;
          apart = omega arith;
          linked = ground arith;
        };
        node = ground arith;
        same_nodes = λ a ne. ground arith;
        same_ips = λ a low'. ground arith;
        fresh = refl;
        node_new = refl;
        prev = refl;
        brk = omega arith;
      },
    )

-- The line `end_node` links the node to a fresh cell.
pub record EndsNode (c : Cursor) (h : Heap) (h' : Heap) : Type 0 where
  pub run : end_node c h ≡ ok (record c { node_new = h.brk; prev = c.node_new }) h'
  pub node : h'.nodes c.node_new ≡ record (h.nodes c.node_new) { next_node = h.brk }
  pub same : (a : Ptr) → a ≢ c.node_new → h'.nodes a ≡ h.nodes a
  pub ips : h'.ips ≡ h.ips
  pub brk : h'.brk ≡ h.brk + 1

pub end_node-EndsNode : (c : Cursor) (h : Heap) → AtNode c h → (h' : Heap) × EndsNode c h h'
unfolding end_node malloc
end_node-EndsNode c h at =
    let p = c.node_new in
    let t = h.brk in
    let h₁ = record h { brk = h.brk + 1 } in
    let h₂ = with_node h₁ p (record (h.nodes p) { next_node = t }) in
    let new : (h₂.nodes p).next_node ≡ t = ground arith in
    let old : (h₂.nodes c.prev).next_node ≡ p = ground arith in
    (
      h₂,
      record {
        run =
            rw
              (
                set_next_node-ok p h₁ at.new_positive (omega arith) t,
                load_node-ok p h₂ at.new_positive (omega arith),
                load_node-ok c.prev h₂ at.prev_positive (omega arith),
              )
              (ap (λ a. ok (record c { node_new = a; prev = (h₂.nodes c.prev).next_node }) h₂) new
                ∙ ap (λ a. ok (record c { node_new = t; prev = a }) h₂) old);
        node = ground arith;
        same = λ a ne. ground arith;
        ips = refl;
        brk = refl;
      },
    )
