-- ===== src/Server/Fits.antt =====
-- What fits the files of server.c before a merge fits them afterwards.
use vpnp2p.Prelude.{List, [], ◌∷◌, ◌++◌, map, eq_ℤ, ltb_ℤ, ◌&&◌, Bool-cases, inl, inr}
use vpnp2p.NodeInfo.Merge.Spec.{newer, newest, has_id, unknown, merge}
use vpnp2p.NodeInfo.Parse.LineReader.{Limits}
use vpnp2p.NodeInfo.Parse.ReadNodes.{NodeFits, AllNodesFit}
use vpnp2p.NodeInfo.Values.{Node}

module _ (l : Limits) where
  newer-NodeFits : (n m : Node) → NodeFits l n → NodeFits l m → NodeFits l (newer n m)
  unfolding newer
  newer-NodeFits n m f g = elim (Bool-cases (eq_ℤ n.id m.id && ltb_ℤ n.node_count m.node_count)) [
    | inl q ↦ rw q (record {
      id = f.id;
      node_count = g.node_count;
      reliable = g.reliable;
      some_ip = g.some_ip;
      ip_list = g.ip_list;
    })
    | inr q ↦ rw q f
  ]

  newest-NodeFits :
      (ms : List Node) (n : Node) → NodeFits l n → AllNodesFit l ms → NodeFits l (newest ms n)
  unfolding newest
  newest-NodeFits [] n f g = f
  newest-NodeFits (m ∷ ms) n f (g, gs) = newest-NodeFits ms (newer n m) (newer-NodeFits n m f g) gs

  unknown-AllNodesFit : (ns ms : List Node) → AllNodesFit l ms → AllNodesFit l (unknown ns ms)
  unfolding unknown
  unknown-AllNodesFit ns [] g = tt
  unknown-AllNodesFit ns (m ∷ ms) (g, gs) = elim (Bool-cases (has_id m.id ns)) [
    | inl q ↦ rw q (unknown-AllNodesFit ns ms gs)
    | inr q ↦ rw q (g, unknown-AllNodesFit ns ms gs)
  ]

  append-AllNodesFit :
      (ns ms ks : List Node)
      → AllNodesFit l ns
      → AllNodesFit l ms
      → AllNodesFit l ks
      → AllNodesFit l (map (newest ms) ns ++ ks)
  append-AllNodesFit [] ms ks f g k = k
  append-AllNodesFit (n ∷ ns) ms ks (f, fs) g k =
      (newest-NodeFits ms n f g, append-AllNodesFit ns ms ks fs g k)

  pub merge-AllNodesFit :
      (ns ms : List Node) → AllNodesFit l ns → AllNodesFit l ms → AllNodesFit l (merge ns ms)
  unfolding merge
  merge-AllNodesFit ns ms f g =
      append-AllNodesFit ns ms (unknown ns ms) f g (unknown-AllNodesFit ns ms g)
