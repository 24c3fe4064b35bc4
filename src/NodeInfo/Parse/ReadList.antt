-- ===== src/NodeInfo/Parse/ReadList.antt =====
-- A reader of lines builds the list that the lines say.
use vpnp2p.Prelude.{suc, ◌≤◌, ◌<◌, ◌≡◌, ◌≢◌, refl, ap, ◌∙◌, List, [], ◌∷◌, arith}
use vpnp2p.CString.{Bytes}
use vpnp2p.NodeInfo.Chain.{HoldsNode_frame, NodeChain, NodeChain-frame, NodeChain-cons}
use vpnp2p.NodeInfo.Heap.{Ptr, null, NodeCell, Heap, Cmd, ok}
use vpnp2p.NodeInfo.Parse.Defs.{Cursor, set_next_node, read_lines}
use vpnp2p.NodeInfo.Parse.LineReader.{Limits, LineReader}
use vpnp2p.NodeInfo.Parse.NodeEnds.{AtNode}
use vpnp2p.NodeInfo.Parse.ReadNodes.{AllNodesFit, ReadsNode, read_node}
use vpnp2p.NodeInfo.Parse.Writes.{with_node, set_next_node-ok}
use vpnp2p.NodeInfo.Print.Render.{node_lines}
use vpnp2p.NodeInfo.Values.{Node}

-- The list from `node_new` holds `ns`, and nothing older changed but that cell.
pub record ReadsNodes (p : Ptr) (h : Heap) (ns : List Node) (h' : Heap) : Type 0 where
  pub chain : NodeChain h' h'.brk p h'.brk p ns
  pub same_nodes : (a : Ptr) → a ≢ p → a < h.brk → h'.nodes a ≡ h.nodes a
  pub same_ips : (a : Ptr) → a < h.brk → h'.ips a ≡ h.ips a
  pub grows : h.brk ≤ h'.brk

-- The last node is cut off the fresh cell behind it.
ReadsNodes-last :
    (c c' : Cursor) (h h₁ : Heap) (n : Node)
    → AtNode c h
    → ReadsNode c h n c' h₁
    → ReadsNodes c.node_new h
        (n ∷ [])
        (with_node h₁ c.node_new (record (h₁.nodes c.node_new) { next_node = null }))
ReadsNodes-last c c' h h₁ n at e =
    let h₂ = with_node h₁ c.node_new (record (h₁.nodes c.node_new) { next_node = null }) in
    let cell : h₂.nodes c.node_new ≡ record (h₁.nodes c.node_new) { next_node = null } =
      ground arith in
    record {
      chain =
          NodeChain-cons h₂ h₂.brk c.node_new h₂.brk c.node_new null n [] at.new_positive
            (omega arith) (omega arith)
            (rw cell (record {
              id = e.holds.id;
              node_count = e.holds.node_count;
              reliable = e.holds.reliable;
              ip_list = e.holds.ip_list;
            }))
            (ap (λ (x : NodeCell). x.next_node) cell) refl;
      same_nodes = λ a ne low. ground (arith, e.same_nodes a ne low);
      same_ips = e.same_ips;
      grows = e.grows;
    }

ReadsNodes-cons :
    (c c' : Cursor) (h h₁ h₂ : Heap) (n : Node) (ns : List Node)
    → AtNode c h
    → ReadsNode c h n c' h₁
    → ReadsNodes c'.node_new h₁ ns h₂
    → ReadsNodes c.node_new h (n ∷ ns) h₂
ReadsNodes-cons c c' h h₁ h₂ n ns at e e' =
    let kept : h₂.nodes c.node_new ≡ h₁.nodes c.node_new =
      e'.same_nodes c.node_new (omega arith) (omega arith) in
    record {
      chain =
          NodeChain-cons h₂ h₂.brk c.node_new h₂.brk c.node_new c'.node_new n ns at.new_positive
            (omega arith) (omega arith)
            (rw kept (
              HoldsNode_frame h₁.ips h₂.ips h₁.brk h₂.brk (h₁.nodes c.node_new) n e'.grows
                e'.same_ips e.holds))
            (ap (λ (x : NodeCell). x.next_node) kept ∙ e.next_node)
            (NodeChain-frame h₂ h₂ h₂.brk c'.node_new h₂.brk h₂.brk (suc c.node_new) h₂.brk
              c'.node_new ns (omega arith) (omega arith) (omega arith) (λ a low. refl)
              (λ a above low. refl) e'.chain);
      same_nodes = λ a ne low. e'.same_nodes a (omega arith) (omega arith) ∙ e.same_nodes a ne low;
      same_ips = λ a low. e'.same_ips a (omega arith) ∙ e.same_ips a low;
      grows = omega arith;
    }

module _ {l : Limits} {step : Bytes → Cursor → Cmd Cursor} (r : LineReader l step) where
  -- The lines of at least one node are read, and the list is cut behind the last.
  pub read_nodes :
      (n : Node) (ns : List Node) (c : Cursor) (h : Heap)
      → AtNode c h
      → AllNodesFit l (n ∷ ns)
      → (c' : Cursor) × (h₁ : Heap) × (h' : Heap) × (read_lines step (node_lines (n ∷ ns)) c h
          ≡ ok c' h₁)
        × (set_next_node c'.prev null h₁ ≡ ok tt h')
        × ReadsNodes c.node_new h (n ∷ ns) h'
  read_nodes n [] c h at fits =
      let (c', h₁, run, e) = read_node r n [] c h at fits.0 in
      let h₂ = with_node h₁ c.node_new (record (h₁.nodes c.node_new) { next_node = null }) in
      (
        c',
        h₁,
        h₂,
        run ∙ unfold read_lines in refl,
        rw e.prev (set_next_node-ok c.node_new h₁ at.new_positive (omega arith) null),
        ReadsNodes-last c c' h h₁ n at e,
      )
  read_nodes n (m ∷ ns) c h at fits =
      let (c', h₁, run, e) = read_node r n (node_lines (m ∷ ns)) c h at fits.0 in
      let (c'', h₂, h₃, run', cut, e') = read_nodes m ns c' h₁ e.at fits.1 in
      (c'', h₂, h₃, run ∙ run', cut, ReadsNodes-cons c c' h h₁ h₃ n (m ∷ ns) at e e')
