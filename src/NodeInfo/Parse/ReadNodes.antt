-- ===== src/NodeInfo/Parse/ReadNodes.antt =====
-- A reader of lines builds the nodes of a list.
use vpnp2p.Prelude.{◌≤◌, ◌<◌, ◌≡◌, ◌≢◌, refl, sym, ap, ◌∙◌, List, [], ◌∷◌, ◌++◌, arith}
use mathlib.Core.Path.{subst}
use vpnp2p.CString.{Bytes, codes, decimal}
use vpnp2p.NodeInfo.Chain.{IpChain-frame, HoldsNode}
use vpnp2p.NodeInfo.Heap.{Ptr, IpCell, NodeCell, Heap, Cmd}
use vpnp2p.NodeInfo.Parse.Defs.{Cursor, read_lines}
use vpnp2p.NodeInfo.Parse.LineReader.{Limits, LineReader}
use vpnp2p.NodeInfo.Parse.ReadIps.{AllIpsFit, ReadsIps, read_ips}
use vpnp2p.NodeInfo.Parse.Writes.{with_node, set_id-ok, set_node_count-ok, set_reliable-ok}
use vpnp2p.NodeInfo.Print.Render.{ips_lines}
use vpnp2p.NodeInfo.Values.{Node}
use vpnp2p.NodeInfo.Parse.NodeEnds.{
  AtNode, StartsIps, start_ips-StartsIps, EndsNode, end_node-EndsNode,
}

-- The nodes that the reader takes: a node without an address is not among them.
pub record NodeFits (l : Limits) (n : Node) : Type 0 where
  pub id : l.IntFits n.id
  pub node_count : l.IntFits n.node_count
  pub reliable : l.IntFits n.reliable
  pub some_ip : n.ip_list ≢ []
  pub ip_list : AllIpsFit l n.ip_list

abbrev pub AllNodesFit : Limits → List Node → Type 0
AllNodesFit l [] = Unit
AllNodesFit l (n ∷ ns) = NodeFits l n × AllNodesFit l ns

-- The lines in front of `ip_list` fill three fields.
record ReadsHead (c : Cursor) (h : Heap) (n : Node) (h' : Heap) : Type 0 where
  id : (h'.nodes c.node_new).id ≡ n.id
  node_count : (h'.nodes c.node_new).node_count ≡ n.node_count
  reliable : (h'.nodes c.node_new).reliable ≡ n.reliable
  same : (a : Ptr) → a ≢ c.node_new → h'.nodes a ≡ h.nodes a
  ips : h'.ips ≡ h.ips
  brk : h'.brk ≡ h.brk

abbrev pub head_lines : Node → List Bytes → List Bytes
head_lines n rest =
    codes "NODE"
    ∷ (codes "id: " ++ decimal n.id)
    ∷ (codes "node_count: " ++ decimal n.node_count)
    ∷ (codes "reliable: " ++ decimal n.reliable)
    ∷ rest

-- A node has been read: its cell holds it and is linked to a fresh cell.
pub record ReadsNode (c : Cursor) (h : Heap) (n : Node) (c' : Cursor) (h' : Heap) : Type 0 where
  pub holds : HoldsNode h'.ips h'.brk (h'.nodes c.node_new) n
  pub next_node : (h'.nodes c.node_new).next_node ≡ c'.node_new
  pub at : AtNode c' h'
  pub prev : c'.prev ≡ c.node_new
  pub fresh : h.brk ≤ c'.node_new
  pub same_nodes : (a : Ptr) → a ≢ c.node_new → a < h.brk → h'.nodes a ≡ h.nodes a
  pub same_ips : (a : Ptr) → a < h.brk → h'.ips a ≡ h.ips a
  pub grows : h.brk ≤ h'.brk

module _ (c c₂ c₃ : Cursor) (h h₁ h₂ h₃ : Heap) (n : Node) (at : AtNode c h)
    (e₁ : ReadsHead c h n h₁) (e₂ : StartsIps c h₁ c₂ h₂)
    (e₃ : ReadsIps c₂ h₂ n.ip_list c₃ h₃) where
  same_nodes-of_parts : (a : Ptr) → a ≢ c.node_new → h₃.nodes a ≡ h.nodes a
  same_nodes-of_parts a ne =
      ap (λ (f : Ptr → NodeCell). f a) e₃.nodes ∙ e₂.same_nodes a ne ∙ e₁.same a ne

  AtNode-of_parts : AtNode c₃ h₃
  AtNode-of_parts = record {
    new_positive = omega arith;
    new_low = omega arith;
    prev_positive = omega arith;
    prev_low = omega arith;
    apart = omega arith;
    linked =
        ap (λ a. (h₃.nodes a).next_node) (e₃.prev ∙ e₂.prev)
        ∙ ap (λ (x : NodeCell). x.next_node) (same_nodes-of_parts c.prev at.apart)
        ∙ at.linked
        ∙ sym (e₃.node_new ∙ e₂.node_new);
  }

  same_node : c₃.node_new ≡ c.node_new
  same_node = e₃.node_new ∙ e₂.node_new

  module _ (h₄ : Heap) (e₄ : EndsNode c₃ h₃ h₄) where
    node_cell :
        h₄.nodes c.node_new
        ≡ record (h₁.nodes c.node_new) { ip_list = c₂.ip_new; next_node = h₃.brk }
    node_cell =
        subst (λ a. h₄.nodes a ≡ record (h₃.nodes a) { next_node = h₃.brk }) same_node e₄.node
        ∙ ap (λ (x : NodeCell). record x { next_node = h₃.brk })
            (ap (λ (f : Ptr → NodeCell). f c.node_new) e₃.nodes ∙ e₂.node)

    HoldsNode-of_parts : HoldsNode h₄.ips h₄.brk (h₄.nodes c.node_new) n
    HoldsNode-of_parts = record {
      id = ap (λ (x : NodeCell). x.id) node_cell ∙ e₁.id;
      node_count = ap (λ (x : NodeCell). x.node_count) node_cell ∙ e₁.node_count;
      reliable = ap (λ (x : NodeCell). x.reliable) node_cell ∙ e₁.reliable;
      ip_list = rw (ap (λ (x : NodeCell). x.ip_list) node_cell) (
          IpChain-frame h₃.ips h₄.ips h₃.brk h₄.brk c₂.ip_new n.ip_list (omega arith)
            (λ a low. ap (λ (f : Ptr → IpCell). f a) e₄.ips) e₃.chain);
    }

    ReadsNode-of_parts : ReadsNode c h n (record c₃ { node_new = h₃.brk; prev = c₃.node_new }) h₄
    ReadsNode-of_parts = record {
      holds = HoldsNode-of_parts;
      next_node = ap (λ (x : NodeCell). x.next_node) node_cell;
      at = record {
        new_positive = omega arith;
        new_low = omega arith;
        prev_positive = omega arith;
        prev_low = omega arith;
        apart = omega arith;
        linked =
            ap (λ a. (h₄.nodes a).next_node) same_node
            ∙ ap (λ (x : NodeCell). x.next_node) node_cell;
      };
      prev = same_node;
      fresh = omega arith;
      same_nodes = λ a ne low. e₄.same a (omega (arith, same_node)) ∙ same_nodes-of_parts a ne;
      same_ips = λ a low.
          ap (λ (f : Ptr → IpCell). f a) e₄.ips
          ∙ e₃.same a (omega arith) (omega arith)
          ∙ e₂.same_ips a (omega arith)
          ∙ ap (λ (f : Ptr → IpCell). f a) e₁.ips;
      grows = omega arith;
    }

module _ {l : Limits} {step : Bytes → Cursor → Cmd Cursor} (r : LineReader l step) where
  read_head :
      (n : Node) (rest : List Bytes) (c : Cursor) (h : Heap)
      → 0 < c.node_new
      → c.node_new < h.brk
      → NodeFits l n
      → (h' : Heap) × (read_lines step (head_lines n rest) c h ≡ read_lines step rest c h')
        × ReadsHead c h n h'
  unfolding read_lines
  read_head n rest c h positive low fits =
      let p = c.node_new in
      let h₁ = with_node h p (record (h.nodes p) { id = n.id }) in
      let h₂ = with_node h₁ p (record (h₁.nodes p) { node_count = n.node_count }) in
      let h₃ = with_node h₂ p (record (h₂.nodes p) { reliable = n.reliable }) in
      (
        h₃,
        rw (
          r.node_line c h,
          r.id_line c h n.id fits.id,
          set_id-ok p h positive low n.id,
          r.node_count_line c h₁ n.node_count fits.node_count,
          set_node_count-ok p h₁ positive low n.node_count,
          r.reliable_line c h₂ n.reliable fits.reliable,
          set_reliable-ok p h₂ positive low n.reliable,
        ),
        record {
          id = ground arith;
          node_count = ground arith;
          reliable = ground arith;
          same = λ a ne. ground arith;
          ips = refl;
          brk = refl;
        },
      )

  pub read_node :
      (n : Node) (rest : List Bytes) (c : Cursor) (h : Heap)
      → AtNode c h
      → NodeFits l n
      → (c' : Cursor) × (h' : Heap) × (read_lines step
            (head_lines n (codes "ip_list" ∷ ips_lines n.ip_list rest))
            c
            h
          ≡ read_lines step rest c' h')
        × ReadsNode c h n c' h'
  read_node n rest c h at fits =
      let tail = codes "ip_list" ∷ ips_lines n.ip_list rest in
      let (h₁, run₁, e₁) = read_head n tail c h at.new_positive at.new_low fits in
      let (c₂, h₂, e₂) = start_ips-StartsIps c h₁ at.new_positive (omega arith) in
      let (c₃, h₃, run₃, e₃) = read_ips r n.ip_list rest c₂ h₂ fits.some_ip e₂.at fits.ip_list in
      let at₃ = AtNode-of_parts c c₂ c₃ h h₁ h₂ h₃ n at e₁ e₂ e₃ in
      let (h₄, e₄) = end_node-EndsNode c₃ h₃ at₃ in
      (
        record c₃ { node_new = h₃.brk; prev = c₃.node_new },
        h₄,
        run₁
            ∙ unfold read_lines in
              rw (r.ip_list_line c h₁, e₂.run)
                (run₃ ∙ unfold read_lines in rw (r.end_line c₃ h₃, e₄.run)),
        ReadsNode-of_parts c c₂ c₃ h h₁ h₂ h₃ n at e₁ e₂ e₃ h₄ e₄,
      )
