-- ===== src/NodeInfo/Merge/Collect.antt =====
-- What the outer loop of `node_merge` collects, and its two kinds of turn.
use vpnp2p.Prelude.{
  ℕ, suc, ◌≤◌, ◌<◌, ◌≡◌, ◌≢◌, refl, sym, ap, ◌∙◌, ◌⊎◌, inr, true, false, List, [], ◌∷◌, map, arith,
}
use mathlib.Core.Path.{subst}
use vpnp2p.NodeInfo.Access.{not_null, load_node-ok}
use vpnp2p.NodeInfo.Chain.{HoldsNode, HoldsNode_linked, NodeChain, NodeChain-cons}
use vpnp2p.NodeInfo.Heap.{Ptr, null, NodeCell, Heap, ok}
use vpnp2p.NodeInfo.Merge.Absorb.{AbsorbsAll}
use vpnp2p.NodeInfo.Merge.Defs.{absorb_loop, merge_loop}
use vpnp2p.NodeInfo.Merge.Keep.{AtRemain, Keeps}
use vpnp2p.NodeInfo.Merge.Spec.{
  newer, newest, has_id, unknown, unknown-newer, unknown_known, unknown_new, map-newest-newer,
}
use vpnp2p.NodeInfo.Parse.Writes.{with_node}
use vpnp2p.NodeInfo.Values.{Node}

-- `prev->next_node = NULL`
abbrev pub cut : Heap → Ptr → Heap
cut h prev = with_node h prev (record (h.nodes prev) { next_node = null })

-- From `prev` on the loop has collected `news`, up to `last`, and the first list holds `ns`.
pub record Merges (p₁ : Ptr) (ns : List Node) (top lo hi prev : Ptr) (news : List Node) (h : Heap)
    (last : Ptr) (h' : Heap) : Type 0 where
  pub first : NodeChain h' top lo hi p₁ ns
  pub last_above : prev ≤ last
  pub last_low : last < h'.brk
  pub rest : NodeChain (cut h' last) top (suc prev) h'.brk ((cut h' last).nodes prev).next_node news
  pub kept :
      (cut h' last).nodes prev
      ≡ record (h.nodes prev) { next_node = ((cut h' last).nodes prev).next_node }
  pub same : (a : Ptr) → (a < lo) ⊎ (hi ≤ a) → a < prev → h'.nodes a ≡ h.nodes a
  pub ips : h'.ips ≡ h.ips
  pub grows : h.brk ≤ h'.brk

pub Merges-none :
    (p₁ : Ptr) (ns : List Node) (top lo hi prev : Ptr) (h : Heap)
    → prev < h.brk
    → NodeChain h top lo hi p₁ ns
    → Merges p₁ ns top lo hi prev [] h prev h
Merges-none p₁ ns top lo hi prev h low chain = record {
  first = chain;
  last_above = omega arith;
  last_low = low;
  rest = ground arith;
  kept = ground arith;
  same = λ a out below. refl;
  ips = refl;
  grows = omega arith;
}

-- The node at `q` was met by the first list, and nothing was collected.
Merges-known :
    (p₁ : Ptr) (ns ns' : List Node) (m : Node) (top lo hi prev : Ptr) (news : List Node)
    (h h₁ : Heap) (last : Ptr) (h' : Heap)
    → hi ≤ prev
    → AbsorbsAll p₁ ns m top lo hi h h₁
    → Merges p₁ ns' top lo hi prev news h₁ last h'
    → Merges p₁ ns' top lo hi prev news h last h'
Merges-known p₁ ns ns' m top lo hi prev news h h₁ last h' out e r = record {
  first = r.first;
  last_above = r.last_above;
  last_low = r.last_low;
  rest = r.rest;
  kept =
      r.kept
      ∙ ap (λ (x : NodeCell). record x { next_node = ((cut h' last).nodes prev).next_node })
          (e.same prev (inr out));
  same = λ a outside below. r.same a outside below ∙ e.same a outside;
  ips = r.ips ∙ e.ips;
  grows = omega arith;
}

-- The node at `q` was collected in the cell `p`.
Merges-unknown :
    (p₁ q p : Ptr) (ns ns' : List Node) (m : Node) (top lo hi prev : Ptr) (news : List Node)
    (h h₁ h₂ : Heap) (last : Ptr) (h' : Heap)
    → hi ≤ prev
    → AtRemain p prev h₁
    → HoldsNode h₁.ips top (h₁.nodes q) m
    → AbsorbsAll p₁ ns m top lo hi h h₁
    → Keeps q p prev h₁ h₂
    → Merges p₁ ns' top lo hi p news h₂ last h'
    → Merges p₁ ns' top lo hi prev (m ∷ news) h last h'
Merges-unknown p₁ q p ns ns' m top lo hi prev news h h₁ h₂ last h' out at w e k r =
    let g = cut h' last in
    let below : last ≢ prev = omega arith in
    let cell : g.nodes prev ≡ h₁.nodes prev =
      ground (arith, r.same prev (inr out) at.ordered, k.same prev (omega arith)) in
    let linked : (g.nodes prev).next_node ≡ p =
      ap (λ (x : NodeCell). x.next_node) cell ∙ at.linked in
    let holds : HoldsNode g.ips top (g.nodes p) m =
      HoldsNode_linked h₂.ips g.ips top (h₂.nodes p) (g.nodes p) _ m r.ips r.kept
        (HoldsNode_linked h₁.ips h₂.ips top (h₁.nodes q) (h₂.nodes p) _ m k.ips k.cell w) in
    record {
      first = r.first;
      last_above = omega arith;
      last_low = r.last_low;
      rest =
          subst (λ a. NodeChain g top (suc prev) h'.brk a (m ∷ news)) (sym linked)
            (NodeChain-cons g top (suc prev) h'.brk p (g.nodes p).next_node m news (omega arith)
              (omega arith) (omega arith) holds refl r.rest);
      kept =
          ap (λ (x : NodeCell). record x { next_node = (g.nodes prev).next_node })
            (cell ∙ e.same prev (inr out));
      same = λ a outside below'.
          r.same a outside (omega arith) ∙ k.same a (omega arith) ∙ e.same a outside;
      ips = r.ips ∙ k.ips ∙ e.ips;
      grows = omega arith;
    }

merge_loop_known :
    (inner fuel : ℕ) (p₁ q p prev : Ptr) (h h₁ : Heap)
    → 0 < q
    → q < h₁.brk
    → absorb_loop inner p₁ q true h ≡ ok false h₁
    → merge_loop inner (suc fuel) p₁ q p prev h
      ≡ merge_loop inner fuel p₁ (h₁.nodes q).next_node p prev h₁
unfolding merge_loop
merge_loop_known inner fuel p₁ q p prev h h₁ positive low run =
    rw (not_null q positive, run, load_node-ok q h₁ positive low)

merge_loop_unknown :
    (inner fuel : ℕ) (p₁ q p prev : Ptr) (h h₁ h₂ : Heap)
    → 0 < q
    → q < h₂.brk
    → absorb_loop inner p₁ q true h ≡ ok true h₁
    → Keeps q p prev h₁ h₂
    → merge_loop inner (suc fuel) p₁ q p prev h
      ≡ merge_loop inner fuel p₁ (h₂.nodes q).next_node h₁.brk p h₂
unfolding merge_loop
merge_loop_unknown inner fuel p₁ q p prev h h₁ h₂ positive low run k =
    rw (not_null q positive, run, k.run, load_node-ok q h₂ positive low)

-- What the loop comes to from the node at `q` on.
abbrev pub Collects :
    ℕ → ℕ → Ptr → Ptr → Ptr → Ptr → List Node → List Node → Ptr → Ptr → Ptr → Heap → Type 0
Collects inner fuel p₁ q p prev ns ms top lo hi h =
    (last : Ptr) × (h' : Heap) × (merge_loop inner fuel p₁ q p prev h ≡ ok last h')
    × Merges p₁ (map (newest ms) ns) top lo hi prev (unknown ns ms) h last h'

pub Collects-known :
    (inner fuel : ℕ) (p₁ q p prev : Ptr) (ns : List Node) (m : Node) (ms : List Node)
    (top lo hi : Ptr) (h h₁ : Heap)
    → hi ≤ prev
    → 0 < q
    → q < h₁.brk
    → absorb_loop inner p₁ q true h ≡ ok false h₁
    → AbsorbsAll p₁ ns m top lo hi h h₁
    → has_id m.id ns ≡ true
    → Collects inner fuel p₁ (h₁.nodes q).next_node p prev (map (λ n. newer n m) ns) ms top lo hi h₁
    → Collects inner (suc fuel) p₁ q p prev ns (m ∷ ms) top lo hi h
Collects-known inner fuel p₁ q p prev ns m ms top lo hi h h₁ out positive low run e known
      (last, h', run', r) =
    (
      last,
      h',
      merge_loop_known inner fuel p₁ q p prev h h₁ positive low run ∙ run',
      rw (← map-newest-newer m ns ms, unknown_known ns m ms known, ← unknown-newer m ns ms)
          (Merges-known p₁ ns _ m top lo hi prev _ h h₁ last h' out e r),
    )

pub Collects-unknown :
    (inner fuel : ℕ) (p₁ q p prev : Ptr) (ns : List Node) (m : Node) (ms : List Node)
    (top lo hi : Ptr) (h h₁ h₂ : Heap)
    → hi ≤ prev
    → 0 < q
    → q < h₂.brk
    → absorb_loop inner p₁ q true h ≡ ok true h₁
    → AbsorbsAll p₁ ns m top lo hi h h₁
    → AtRemain p prev h₁
    → HoldsNode h₁.ips top (h₁.nodes q) m
    → Keeps q p prev h₁ h₂
    → has_id m.id ns ≡ false
    → Collects inner fuel p₁
        (h₂.nodes q).next_node
        h₁.brk
        p
        (map (λ n. newer n m) ns)
        ms
        top
        lo
        hi
        h₂
    → Collects inner (suc fuel) p₁ q p prev ns (m ∷ ms) top lo hi h
Collects-unknown inner fuel p₁ q p prev ns m ms top lo hi h h₁ h₂ out positive low run e at w k new
      (last, h', run', r) =
    (
      last,
      h',
      merge_loop_unknown inner fuel p₁ q p prev h h₁ h₂ positive low run k ∙ run',
      rw (← map-newest-newer m ns ms, unknown_new ns m ms new, ← unknown-newer m ns ms)
          (Merges-unknown p₁ q p ns _ m top lo hi prev _ h h₁ h₂ last h' out at w e k r),
    )
