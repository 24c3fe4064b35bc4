-- ===== src/NodeInfo/Merge/Loop.antt =====
-- The outer loop of `node_merge`.
use vpnp2p.Prelude.{
  ℕ, zero, suc, ◌≤◌, ◌<◌, ◌≡◌, ◌≢◌, refl, ap, ◌∙◌, ◌⊎◌, inl, inr, true, not, ◌&&◌, List, [], ◌∷◌,
  map, arith, Bool-cases, length, length-map,
}
use vpnp2p.NodeInfo.Chain.{HoldsNode_eq, NodeChain, NodeChain-frame}
use vpnp2p.NodeInfo.Heap.{Ptr, IpCell, NodeCell, Heap, ok}
use vpnp2p.NodeInfo.Merge.Absorb.{absorb_loop-AbsorbsAll}
use vpnp2p.NodeInfo.Merge.Defs.{merge_loop}
use vpnp2p.NodeInfo.Merge.Keep.{AtRemain, keep_node-Keeps}
use vpnp2p.NodeInfo.Merge.Spec.{newer, has_id, unknown, map-newest-nil}
use vpnp2p.NodeInfo.Values.{Node}
use vpnp2p.NodeInfo.Merge.Collect.{Merges-none, Collects, Collects-known, Collects-unknown}

-- The lists of the two arguments and the collected list stand apart.
pub record Apart (lo₁ hi₁ lo₂ hi₂ prev : Ptr) : Type 0 where
  pub lists : (hi₁ ≤ lo₂) ⊎ (hi₂ ≤ lo₁)
  pub first : hi₁ ≤ prev
  pub second : hi₂ ≤ prev

-- A list whose cells a step has left alone.
chain_beyond :
    (h g : Heap) (top lo hi p q : Ptr) (ns : List Node)
    → g.ips ≡ h.ips
    → ((a : Ptr) → lo ≤ a → a < hi → g.nodes a ≡ h.nodes a)
    → q ≡ p
    → NodeChain h top lo hi p ns
    → NodeChain g top lo hi q ns
chain_beyond h g top lo hi p q ns ips same e c = rw e (
    NodeChain-frame h g top lo hi top lo hi p ns (omega arith) (omega arith) (omega arith)
      (λ a l. ap (λ (f : Ptr → IpCell). f a) ips) same c)

-- The loop meets every node of the second list, and collects those that the first list lacks.
pub merge_loop-Merges :
    (inner fuel : ℕ) (p₁ q p prev : Ptr) (ns ms : List Node) (top lo₁ hi₁ lo₂ hi₂ : Ptr) (h : Heap)
    → length ns < inner
    → length ms < fuel
    → Apart lo₁ hi₁ lo₂ hi₂ prev
    → AtRemain p prev h
    → NodeChain h top lo₁ hi₁ p₁ ns
    → NodeChain h top lo₂ hi₂ q ms
    → Collects inner fuel p₁ q p prev ns ms top lo₁ hi₁ h
merge_loop-Merges inner zero p₁ q p prev ns ms top lo₁ hi₁ lo₂ hi₂ h room₁ room₂ apart at c₁ c₂ =
    elim room₂ [ ]
merge_loop-Merges inner (suc fuel) p₁ q p prev ns [] top lo₁ hi₁ lo₂ hi₂ h room₁ room₂ apart at c₁
      c₂ =
    (
      prev,
      h,
      unfold merge_loop in rw c₂,
      unfold unknown in
          rw (map-newest-nil ns) (Merges-none p₁ ns top lo₁ hi₁ prev h (omega arith) c₁),
    )
merge_loop-Merges inner (suc fuel) p₁ q p prev ns (m ∷ ms) top lo₁ hi₁ lo₂ hi₂ h room₁ room₂ apart
      at c₁ (q_pos, above, low, w, c₂) =
    let (h₁, run, e) =
      absorb_loop-AbsorbsAll inner p₁ q true ns m top lo₁ hi₁ h room₁ (omega arith) q_pos
        (omega arith) (omega arith) w c₁ in
    let same_q = e.same q (omega arith) in
    let w₁ = HoldsNode_eq h.ips h₁.ips top (h.nodes q) (h₁.nodes q) m e.ips same_q w in
    let c₂' =
      chain_beyond h h₁ top (suc q) hi₂ (h.nodes q).next_node (h₁.nodes q).next_node ms e.ips
        (λ a l u. e.same a (omega arith)) (ap (λ (x : NodeCell). x.next_node) same_q) c₂ in
    let at₁ : AtRemain p prev h₁ = record {
      prev_positive = at.prev_positive;
      ordered = at.ordered;
      low = omega arith;
      linked = ap (λ (x : NodeCell). x.next_node) (e.same prev (inr apart.first)) ∙ at.linked;
    } in
    let shorter = rw (← length-map ns (λ n. newer n m)) at room₁ in
    elim (Bool-cases (has_id m.id ns)) [
      | inl known ↦
          Collects-known inner fuel p₁ q p prev ns m ms top lo₁ hi₁ h h₁ apart.first q_pos
            (omega arith) (run ∙ ap (λ b. ok (true && not b) h₁) known) e known
            (merge_loop-Merges inner fuel p₁ (h₁.nodes q).next_node p prev (map (λ n. newer n m) ns)
              ms top lo₁ hi₁ (suc q) hi₂ h₁ shorter (omega arith)
              (record { lists = omega arith; first = apart.first; second = apart.second }) at₁
              e.chain c₂')
      | inr new ↦
          let (h₂, k) = keep_node-Keeps q p prev h₁ q_pos (omega arith) at₁ in
          let q_ne : q ≢ p = omega arith in
          let c₁'' =
            chain_beyond h₁ h₂ top lo₁ hi₁ p₁ p₁ (map (λ n. newer n m) ns) k.ips
              (λ a l u. k.same a (omega arith)) refl e.chain in
          let c₂'' =
            chain_beyond h₁ h₂ top (suc q) hi₂ (h₁.nodes q).next_node (h₂.nodes q).next_node ms
              k.ips (λ a l u. k.same a (omega arith))
              (ap (λ (x : NodeCell). x.next_node) (k.same q q_ne)) c₂' in
          let at₂ : AtRemain h₁.brk p h₂ = record {
            prev_positive = omega arith;
            ordered = at₁.low;
            low = omega arith;
            linked = ap (λ (x : NodeCell). x.next_node) k.cell;
          } in
          Collects-unknown inner fuel p₁ q p prev ns m ms top lo₁ hi₁ h h₁ h₂ apart.first q_pos
            (omega arith) (run ∙ ap (λ b. ok (true && not b) h₁) new) e at₁ w₁ k new
            (merge_loop-Merges inner fuel p₁ (h₂.nodes q).next_node h₁.brk p
              (map (λ n. newer n m) ns) ms top lo₁ hi₁ (suc q) hi₂ h₂ shorter (omega arith)
              (record { lists = omega arith; first = omega arith; second = omega arith }) at₂ c₁''
              c₂'')
    ]
