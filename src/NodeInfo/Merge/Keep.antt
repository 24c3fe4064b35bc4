-- ===== src/NodeInfo/Merge/Keep.antt =====
-- `node_merge` copies a node that the first list lacks to the list of the remaining ones.
use vpnp2p.Prelude.{◌+◌, ◌<◌, ◌≡◌, ◌≢◌, refl, ap, ◌∙◌, arith}
use vpnp2p.NodeInfo.Access.{load_node-ok, store_node-ok}
use vpnp2p.NodeInfo.Heap.{Ptr, NodeCell, Heap, ok, malloc}
use vpnp2p.NodeInfo.Merge.Defs.{keep_node}
use vpnp2p.NodeInfo.Parse.Writes.{with_node, set_next_node-ok}

-- `prev` is linked to the cell to fill, `p`.
pub record AtRemain (p prev : Ptr) (h : Heap) : Type 0 where
  pub prev_positive : 0 < prev
  pub ordered : prev < p
  pub low : p < h.brk
  pub linked : (h.nodes prev).next_node ≡ p

-- The cell `p` holds what stands at `q`, and is linked to a fresh cell.
pub record Keeps (q p prev : Ptr) (h h' : Heap) : Type 0 where
  pub run : keep_node q p prev h ≡ ok (h.brk, p) h'
  pub cell : h'.nodes p ≡ record (h.nodes q) { next_node = h.brk }
  pub same : (a : Ptr) → a ≢ p → h'.nodes a ≡ h.nodes a
  pub ips : h'.ips ≡ h.ips
  pub brk : h'.brk ≡ h.brk + 1

pub keep_node-Keeps :
    (q p prev : Ptr) (h : Heap)
    → 0 < q
    → q < h.brk
    → AtRemain p prev h
    → (h' : Heap) × Keeps q p prev h h'
unfolding keep_node malloc
keep_node-Keeps q p prev h q_pos q_low at =
    let c₂ = h.nodes q in
    let c = record (h.nodes p) {
      id = c₂.id;
      node_count = c₂.node_count;
      reliable = c₂.reliable;
      ip_list = c₂.ip_list;
    } in
    let h₁ = with_node h p c in
    let h₂ = record h₁ { brk = h.brk + 1 } in
    let h₃ = with_node h₂ p (record (h₂.nodes p) { next_node = h.brk }) in
    let cell : h₃.nodes p ≡ record c₂ { next_node = h.brk } = ground arith in
    let linked : (h₃.nodes prev).next_node ≡ p = ground arith in
    (
      h₃,
      record {
        run =
            rw
              (
                load_node-ok q h q_pos q_low,
                load_node-ok p h (omega arith) at.low,
                store_node-ok p h (omega arith) at.low c,
                set_next_node-ok p h₂ (omega arith) (omega arith) h.brk,
                load_node-ok p h₃ (omega arith) (omega arith),
                load_node-ok prev h₃ at.prev_positive (omega arith),
              )
              (ap (λ a. ok (a, (h₃.nodes prev).next_node) h₃)
                  (ap (λ (x : NodeCell). x.next_node) cell)
                ∙ ap (λ a. ok (h.brk, a) h₃) linked);
        cell = cell;
        same = λ a ne. ground arith;
        ips = refl;
        brk = refl;
      },
    )
