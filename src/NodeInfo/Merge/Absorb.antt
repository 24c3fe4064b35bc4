-- ===== src/NodeInfo/Merge/Absorb.antt =====
-- The inner loop of `node_merge` updates the first list by one node of the second.
use vpnp2p.Prelude.{
  ℕ, zero, suc, ◌≤◌, ◌<◌, ◌≡◌, ◌≢◌, refl, ap, ◌∙◌, ◌⊎◌, inl, inr, Bool, true, false, not, ◌&&◌,
  ◌||◌, List, [], ◌∷◌, map, eq_ℤ, ltb_ℤ, arith, both, Bool-cases, length,
}
use vpnp2p.NodeInfo.Access.{not_null, load_node-ok, store_node-ok}
use vpnp2p.NodeInfo.Chain.{HoldsNode, HoldsNode_eq, NodeChain, NodeChain-frame, NodeChain-cons}
use vpnp2p.NodeInfo.Heap.{Ptr, IpCell, NodeCell, Heap, ok}
use vpnp2p.NodeInfo.Merge.Defs.{absorb, absorb_loop}
use vpnp2p.NodeInfo.Merge.Spec.{newer, has_id}
use vpnp2p.NodeInfo.Parse.Writes.{with_node}
use vpnp2p.NodeInfo.Values.{Node}

flag_or : (f a b : Bool) → ((f && not a) && not b) ≡ (f && not (a || b))
flag_or f a b = ground arith

-- One node at `p` has met the node at `q`.
record Absorbs (p q : Ptr) (n m : Node) (top : Ptr) (h h' : Heap) : Type 0 where
  run : absorb p q h ≡ ok (eq_ℤ n.id m.id) h'
  holds : HoldsNode h'.ips top (h'.nodes p) (newer n m)
  next_node : (h'.nodes p).next_node ≡ (h.nodes p).next_node
  same : (a : Ptr) → a ≢ p → h'.nodes a ≡ h.nodes a
  ips : h'.ips ≡ h.ips
  brk : h'.brk ≡ h.brk

module _ (p q : Ptr) (n m : Node) (top : Ptr) (h : Heap) (p_pos : 0 < p) (p_low : p < h.brk)
    (q_pos : 0 < q) (q_low : q < h.brk) (v : HoldsNode h.ips top (h.nodes p) n)
    (w : HoldsNode h.ips top (h.nodes q) m) where
  -- Nothing is written if the ids differ, or if the node of the second list is no newer.
  absorb_nothing :
      (eq_ℤ n.id m.id && ltb_ℤ n.node_count m.node_count) ≡ false → Absorbs p q n m top h h
  absorb_nothing e = record {
    run =
        unfold absorb in
        rw
          (
            load_node-ok p h p_pos p_low,
            load_node-ok q h q_pos q_low,
            v.id,
            w.id,
            v.node_count,
            w.node_count,
          )
          (ground arith);
    holds = unfold newer in rw e v;
    next_node = refl;
    same = λ a ne. refl;
    ips = refl;
    brk = refl;
  }

  absorb_newer :
      (eq_ℤ n.id m.id && ltb_ℤ n.node_count m.node_count) ≡ true
      → (h' : Heap) × Absorbs p q n m top h h'
  absorb_newer e =
      let c₂ = h.nodes q in
      let c = record (h.nodes p) {
        node_count = c₂.node_count;
        reliable = c₂.reliable;
        ip_list = c₂.ip_list;
      } in
      let h' = with_node h p c in
      let cell : h'.nodes p ≡ c = ground arith in
      let (same, count) = both (eq_ℤ n.id m.id) (ltb_ℤ n.node_count m.node_count) e in
      (
        h',
        record {
          run =
              unfold absorb in
              rw (
                load_node-ok p h p_pos p_low,
                load_node-ok q h q_pos q_low,
                v.id,
                w.id,
                same,
                v.node_count,
                w.node_count,
                count,
                store_node-ok p h p_pos p_low,
              );
          holds =
              unfold newer in
              rw (cell, e)
                (record {
                  id = v.id;
                  node_count = w.node_count;
                  reliable = w.reliable;
                  ip_list = w.ip_list;
                });
          next_node = ap (λ (x : NodeCell). x.next_node) cell;
          same = λ a ne. ground arith;
          ips = refl;
          brk = refl;
        },
      )

  absorb-Absorbs : (h' : Heap) × Absorbs p q n m top h h'
  absorb-Absorbs = elim (Bool-cases (eq_ℤ n.id m.id && ltb_ℤ n.node_count m.node_count)) [
    | inl e ↦ absorb_newer e
    | inr e ↦ (h, absorb_nothing e)
  ]

-- The first list from `p` on has met the node at `q`.
pub record AbsorbsAll (p : Ptr) (ns : List Node) (m : Node) (top lo hi : Ptr) (h h' : Heap)
    : Type 0 where
  pub chain : NodeChain h' top lo hi p (map (λ n. newer n m) ns)
  pub same : (a : Ptr) → (a < lo) ⊎ (hi ≤ a) → h'.nodes a ≡ h.nodes a
  pub ips : h'.ips ≡ h.ips
  pub brk : h'.brk ≡ h.brk

absorb_loop_step :
    (fuel : ℕ) (p q : Ptr) (flag : Bool) (n m : Node) (top : Ptr) (h h₁ : Heap)
    → 0 < p
    → p < h.brk
    → Absorbs p q n m top h h₁
    → absorb_loop (suc fuel) p q flag h
      ≡ absorb_loop fuel (h.nodes p).next_node q (flag && not (eq_ℤ n.id m.id)) h₁
unfolding absorb_loop
absorb_loop_step fuel p q flag n m top h h₁ p_pos p_low e =
    rw (not_null p p_pos, e.run, load_node-ok p h₁ p_pos (omega arith), e.next_node)

pub absorb_loop-AbsorbsAll :
    (fuel : ℕ) (p q : Ptr) (flag : Bool) (ns : List Node) (m : Node) (top lo hi : Ptr) (h : Heap)
    → length ns < fuel
    → hi ≤ h.brk
    → 0 < q
    → q < h.brk
    → (q < lo) ⊎ (hi ≤ q)
    → HoldsNode h.ips top (h.nodes q) m
    → NodeChain h top lo hi p ns
    → (h' : Heap) × (absorb_loop fuel p q flag h ≡ ok (flag && not (has_id m.id ns)) h')
      × AbsorbsAll p ns m top lo hi h h'
absorb_loop-AbsorbsAll zero p q flag ns m top lo hi h room up q_pos q_low apart w chain =
    elim room [ ]
absorb_loop-AbsorbsAll (suc fuel) p q flag [] m top lo hi h room up q_pos q_low apart w chain = (
  h,
  unfold absorb_loop in rw chain (ground arith),
  record { chain = chain; same = λ a out. refl; ips = refl; brk = refl },
)
absorb_loop-AbsorbsAll (suc fuel) p q flag (n ∷ ns) m top lo hi h room up q_pos q_low apart w
      (p_pos, above, below, v, rest) =
    let (h₁, e) = absorb-Absorbs p q n m top h p_pos (omega arith) q_pos q_low v w in
    let rest₁ =
      NodeChain-frame h h₁ top (suc p) hi top (suc p) hi (h.nodes p).next_node ns (omega arith)
        (omega arith) (omega arith) (λ a low. ap (λ (f : Ptr → IpCell). f a) e.ips)
        (λ a l u. e.same a (omega arith)) rest in
    let w₁ =
      HoldsNode_eq h.ips h₁.ips top (h.nodes q) (h₁.nodes q) m e.ips (e.same q (omega arith)) w in
    let (h₂, run₂, e₂) =
      absorb_loop-AbsorbsAll fuel (h.nodes p).next_node q (flag && not (eq_ℤ n.id m.id)) ns m top
        (suc p) hi h₁ (omega arith) (omega arith) q_pos (omega arith) (omega arith) w₁ rest₁ in
    let kept : h₂.nodes p ≡ h₁.nodes p = e₂.same p (omega arith) in
    (
      h₂,
      absorb_loop_step fuel p q flag n m top h h₁ p_pos (omega arith) e
          ∙ (run₂ ∙ ap (λ b. ok b h₂) (flag_or flag (eq_ℤ n.id m.id) (has_id m.id ns))),
      record {
        chain =
            NodeChain-cons h₂ top lo hi p (h.nodes p).next_node (newer n m) _ p_pos above below
              (HoldsNode_eq h₁.ips h₂.ips top (h₁.nodes p) (h₂.nodes p) (newer n m) e₂.ips kept
                e.holds)
              (ap (λ (x : NodeCell). x.next_node) kept ∙ e.next_node) e₂.chain;
        same = λ a out. e₂.same a (omega arith) ∙ e.same a (omega arith);
        ips = e₂.ips ∙ e.ips;
        brk = e₂.brk ∙ e.brk;
      },
    )
