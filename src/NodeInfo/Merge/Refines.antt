-- ===== src/NodeInfo/Merge/Refines.antt =====
-- `node_merge` computes `merge`.
use vpnp2p.Prelude.{
  ℕ, suc, ◌+◌, ◌≤◌, ◌<◌, ◌||◌, ℤ, ◌≡◌, ◌≢◌, refl, ◌∙◌, ◌⊎◌, List, ◌∷◌, map, pos, arith, length,
  length-map,
}
use vpnp2p.NodeInfo.Access.{load_node-ok}
use vpnp2p.NodeInfo.Chain.{NodeChain, NodeChain-frame}
use vpnp2p.NodeInfo.Heap.{Ptr, null, NodeCell, Heap, ok, malloc}
use vpnp2p.NodeInfo.Merge.Defs.{merge_loop, find_last, node_merge}
use vpnp2p.NodeInfo.Merge.Keep.{AtRemain}
use vpnp2p.NodeInfo.Merge.Last.{find_last-IsLast}
use vpnp2p.NodeInfo.Merge.Collect.{cut}
use vpnp2p.NodeInfo.Merge.Loop.{merge_loop-Merges}
use vpnp2p.NodeInfo.Merge.Spec.{has_id, has_id-merge, newest, unknown, merge}
use vpnp2p.NodeInfo.Parse.Writes.{with_node, set_next_node-ok}
use vpnp2p.NodeInfo.Values.{Node}

-- Two lists in the heap that share no cell.
pub record TwoLists (h : Heap) (top : Ptr) (lo₁ hi₁ p₁ : Ptr) (ns : List Node) (lo₂ hi₂ p₂ : Ptr)
    (ms : List Node) : Type 0 where
  pub first : NodeChain h top lo₁ hi₁ p₁ ns
  pub second : NodeChain h top lo₂ hi₂ p₂ ms
  pub lists : (hi₁ ≤ lo₂) ⊎ (hi₂ ≤ lo₁)
  pub first_low : hi₁ ≤ h.brk
  pub second_low : hi₂ ≤ h.brk
  pub positive : 0 < h.brk

-- The heap in front of the loop.
abbrev entered : Heap → Heap
entered h =
    let h₀ = record h { brk = h.brk + 1 + 1 } in
    with_node h₀ h.brk (record (h₀.nodes h.brk) { next_node = h.brk + 1 })

node_merge_run :
    (fuel : ℕ) (p₁ p₂ : Ptr) (h : Heap) (prev last : Ptr) (h₁ : Heap)
    → 0 < h.brk
    → h.brk + 2 ≤ h₁.brk
    → merge_loop fuel fuel p₁ p₂ (h.brk + 1) h.brk (entered h) ≡ ok prev h₁
    → find_last fuel p₁ h₁ ≡ ok last h₁
    → 0 < prev
    → prev < h₁.brk
    → 0 < last
    → last < h₁.brk
    → (let g = cut h₁ prev in
        node_merge fuel p₁ p₂ h
        ≡ ok
            (pos 0)
            (with_node g last (record (g.nodes last) { next_node = (g.nodes h.brk).next_node })))
unfolding node_merge malloc
node_merge_run fuel p₁ p₂ h prev last h₁ positive grows run walk prev_pos prev_low last_pos
      last_low =
    let h₀ = record h { brk = h.brk + 1 + 1 } in
    let g = cut h₁ prev in
    rw (
      set_next_node-ok h.brk h₀ positive (omega arith) (h.brk + 1),
      run,
      walk,
      set_next_node-ok prev h₁ prev_pos prev_low null,
      load_node-ok h.brk g positive (omega arith),
      set_next_node-ok last g last_pos last_low (g.nodes h.brk).next_node,
    )

with_node_other :
    (h : Heap) (p : Ptr) (c : NodeCell) (a : Ptr) → a ≢ p → (with_node h p c).nodes a ≡ h.nodes a
with_node_other h p c a ne = ground arith

with_node_same :
    (h h₁ : Heap) (p q : Ptr)
    → h.nodes p ≡ h₁.nodes p
    → (with_node h p (record (h.nodes p) { next_node = q })).nodes p
      ≡ record (h₁.nodes p) { next_node = q }
with_node_same h h₁ p q e = ground arith

-- On two lists that share no cell, the first of at least one node, and with more fuel than either
-- list is long, `node_merge` returns 0 and leaves at the first argument the list that `merge`
-- computes. It changes no address, and gives no cell back.
pub node_merge-merge :
    (fuel : ℕ) (h : Heap) (top lo₁ hi₁ p₁ : Ptr) (n : Node) (ns : List Node) (lo₂ hi₂ p₂ : Ptr)
    (ms : List Node)
    → length (n ∷ ns) < fuel
    → length ms < fuel
    → TwoLists h top lo₁ hi₁ p₁ (n ∷ ns) lo₂ hi₂ p₂ ms
    → (h' : Heap) × (node_merge fuel p₁ p₂ h ≡ ok (pos 0) h')
      × NodeChain h' top lo₁ h'.brk p₁ (merge (n ∷ ns) ms)
      × (h'.ips ≡ h.ips)
      × (h.brk ≤ h'.brk)
unfolding merge
node_merge-merge fuel h top lo₁ hi₁ p₁ n ns lo₂ hi₂ p₂ ms room₁ room₂ t =
    let h₀ = entered h in
    let first =
      NodeChain-frame h h₀ top lo₁ hi₁ top lo₁ hi₁ p₁ (n ∷ ns) (omega arith) (omega arith)
        (omega arith) (λ a l. refl) (λ a l u. ground arith) t.first in
    let second =
      NodeChain-frame h h₀ top lo₂ hi₂ top lo₂ hi₂ p₂ ms (omega arith) (omega arith) (omega arith)
        (λ a l. refl) (λ a l u. ground arith) t.second in
    let at : AtRemain (h.brk + 1) h.brk h₀ = record {
      prev_positive = t.positive;
      ordered = omega arith;
      low = omega arith;
      linked = ground arith;
    } in
    let (prev, h₁, run, r) =
      merge_loop-Merges fuel fuel p₁ p₂ (h.brk + 1) h.brk (n ∷ ns) ms top lo₁ hi₁ lo₂ hi₂ h₀ room₁
        room₂ (record { lists = t.lists; first = t.first_low; second = t.second_low }) at first
        second in
    let (last, walk, l) =
      find_last-IsLast fuel p₁ (newest ms n) (map (newest ms) ns) top lo₁ hi₁ h₁
        (rw (length-map ns (newest ms)) (omega arith)) (omega arith) r.first in
    let g = cut h₁ prev in
    let q = (g.nodes h.brk).next_node in
    let h₂ = with_node g last (record (g.nodes last) { next_node = q }) in
    let linked = record (g.nodes last) { next_node = q } in
    let same : (a : Ptr) → a < hi₁ → g.nodes a ≡ h₁.nodes a = λ a u.
      with_node_other h₁ prev (record (h₁.nodes prev) { next_node = null }) a (omega arith) in
    let tail =
      NodeChain-frame g h₂ top (suc h.brk) g.brk top hi₁ g.brk q (unknown (n ∷ ns) ms) (omega arith)
        (omega arith) (omega arith) (λ a u. refl)
        (λ a lo hi. with_node_other g last linked a (omega arith)) r.rest in
    (
      h₂,
      node_merge_run fuel p₁ p₂ h prev last h₁ t.positive (omega arith) run walk (omega arith)
          r.last_low l.positive (omega arith),
      l.continues h₂ h₂.brk q (unknown (n ∷ ns) ms) (omega arith) refl
          (λ a lo hi ne. with_node_other g last linked a ne ∙ same a hi)
          (with_node_same g h₁ last q (same last l.below)) tail,
      r.ips,
      omega arith,
    )

-- Under the conditions of `node_merge-merge`, `node_merge` loses no node and invents none: the
-- list that it leaves at the first argument has the ids of the two lists, and no other.
pub node_merge-has_id :
    (fuel : ℕ) (h : Heap) (top lo₁ hi₁ p₁ : Ptr) (n : Node) (ns : List Node) (lo₂ hi₂ p₂ : Ptr)
    (ms : List Node)
    → length (n ∷ ns) < fuel
    → length ms < fuel
    → TwoLists h top lo₁ hi₁ p₁ (n ∷ ns) lo₂ hi₂ p₂ ms
    → (h' : Heap) × (ks : List Node) × (node_merge fuel p₁ p₂ h ≡ ok (pos 0) h')
      × NodeChain h' top lo₁ h'.brk p₁ ks
      × ((z : ℤ) → has_id z ks ≡ (has_id z (n ∷ ns) || has_id z ms))
node_merge-has_id fuel h top lo₁ hi₁ p₁ n ns lo₂ hi₂ p₂ ms room₁ room₂ t =
    let (h', run, chain, ips, grows) =
      node_merge-merge fuel h top lo₁ hi₁ p₁ n ns lo₂ hi₂ p₂ ms room₁ room₂ t in
    (h', merge (n ∷ ns) ms, run, chain, λ z. has_id-merge z (n ∷ ns) ms)
