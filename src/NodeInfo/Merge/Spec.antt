-- ===== src/NodeInfo/Merge/Spec.antt =====
-- What `node_merge` computes, on lists of nodes.
use vpnp2p.Prelude.{
  ◌≡◌, refl, ap, ◌∙◌, Bool, true, false, ◌&&◌, ◌||◌, List, [], ◌∷◌, ◌++◌, map, ℤ, eq_ℤ, ltb_ℤ,
  eq_ℤ_iff, arith, if◌then◌else◌,
}
use vpnp2p.NodeInfo.Values.{Node}

-- A node after it has met another: the later version of the same node replaces it.
unfoldable pub newer : Node → Node → Node
newer n m =
    if eq_ℤ n.id m.id && ltb_ℤ n.node_count m.node_count
    then record n { node_count = m.node_count; reliable = m.reliable; ip_list = m.ip_list }
    else n

unfoldable pub newest : List Node → Node → Node
unfolding newer
newest [] n = n
newest (m ∷ ms) n = newest ms (newer n m)

abbrev pub has_id : ℤ → List Node → Bool
has_id z [] = false
has_id z (n ∷ ns) = eq_ℤ n.id z || has_id z ns

-- The nodes whose ids the first list lacks.
unfoldable pub unknown : List Node → List Node → List Node
unknown ns [] = []
unknown ns (m ∷ ms) = if has_id m.id ns then unknown ns ms else m ∷ unknown ns ms

unfoldable pub merge : List Node → List Node → List Node
unfolding newest unknown
merge ns ms = map (newest ms) ns ++ unknown ns ms

abbrev pub merge_all : List Node → List (List Node) → List Node
merge_all ns [] = ns
merge_all ns (ms ∷ mss) = merge_all (merge ns ms) mss

-- Meeting other nodes changes no id.
pub newer-id : (n m : Node) → (newer n m).id ≡ n.id
unfolding newer
newer-id n m = ground arith

pub has_id-newer :
    (z : ℤ) (m : Node) (ns : List Node) → has_id z (map (λ n. newer n m) ns) ≡ has_id z ns
has_id-newer z m [] = refl
has_id-newer z m (n ∷ ns) = rw (newer-id n m, has_id-newer z m ns)

pub unknown-newer :
    (m : Node) (ns ms : List Node) → unknown (map (λ n. newer n m) ns) ms ≡ unknown ns ms
unfolding unknown
unknown-newer m ns [] = refl
unknown-newer m ns (k ∷ ms) = rw (has_id-newer k.id m ns, unknown-newer m ns ms)

pub map-newest-newer :
    (m : Node) (ns ms : List Node)
    → map (newest ms) (map (λ n. newer n m) ns) ≡ map (newest (m ∷ ms)) ns
unfolding newest
map-newest-newer m [] ms = refl
map-newest-newer m (n ∷ ns) ms = ap (◌∷◌ (newest ms (newer n m))) (map-newest-newer m ns ms)

pub map-newest-nil : (ns : List Node) → map (newest []) ns ≡ ns
unfolding newest
map-newest-nil [] = refl
map-newest-nil (n ∷ ns) = ap (◌∷◌ n) (map-newest-nil ns)

pub unknown_known :
    (ns : List Node) (m : Node) (ms : List Node)
    → has_id m.id ns ≡ true
    → unknown ns (m ∷ ms) ≡ unknown ns ms
unfolding unknown
unknown_known ns m ms e = rw e

pub unknown_new :
    (ns : List Node) (m : Node) (ms : List Node)
    → has_id m.id ns ≡ false
    → unknown ns (m ∷ ms) ≡ m ∷ unknown ns ms
unfolding unknown
unknown_new ns m ms e = rw e

pub newest-id : (ms : List Node) (n : Node) → (newest ms n).id ≡ n.id
unfolding newest
newest-id [] n = refl
newest-id (m ∷ ms) n = newest-id ms (newer n m) ∙ newer-id n m

has_id-append : (z : ℤ) (ns ms : List Node) → has_id z (ns ++ ms) ≡ (has_id z ns || has_id z ms)
has_id-append z [] ms = refl
has_id-append z (n ∷ ns) ms = ground (arith, has_id-append z ns ms)

pub has_id-map-newest : (z : ℤ) (ms ns : List Node) → has_id z (map (newest ms) ns) ≡ has_id z ns
has_id-map-newest z ms [] = refl
has_id-map-newest z ms (n ∷ ns) = rw (newest-id ms n, has_id-map-newest z ms ns) refl

has_id-unknown :
    (z : ℤ) (ns ms : List Node)
    → (has_id z ns || has_id z (unknown ns ms)) ≡ (has_id z ns || has_id z ms)
unfolding unknown
has_id-unknown z ns [] = refl
has_id-unknown z ns (m ∷ ms) = ground (arith, has_id-unknown z ns ms, eq_ℤ_iff m.id z)

-- The merged list has just the ids that one of the lists has.
pub has_id-merge :
    (z : ℤ) (ns ms : List Node) → has_id z (merge ns ms) ≡ (has_id z ns || has_id z ms)
unfolding merge
has_id-merge z ns ms =
    has_id-append z (map (newest ms) ns) (unknown ns ms)
    ∙ rw (has_id-map-newest z ms ns) (has_id-unknown z ns ms)
