-- ===== src/NodeInfo/Compare/Values.antt =====
-- The comparisons on the lists that the heap stands for.
use vpnp2p.Prelude.{Bool, true, false, not, ◌&&◌, ◌||◌, List, [], ◌∷◌, eq_ℤ}
use vpnp2p.CString.{Bytes, str_eq}
use vpnp2p.NodeInfo.Values.{Ip, Node}

-- What the loop of `node_is_identical` accepts.
abbrev pub pairwise_distinct : List Ip → List Ip → Bool
pairwise_distinct [] [] = true
pairwise_distinct (x ∷ xs) (y ∷ ys) =
    not (str_eq x.ip y.ip || str_eq x.type y.type || not (eq_ℤ x.s_count y.s_count))
    && pairwise_distinct xs ys
pairwise_distinct _ _ = false

unfoldable pub accepted_as_identical : Node → Node → Bool
accepted_as_identical n m =
    eq_ℤ n.id m.id && (eq_ℤ n.node_count m.node_count && pairwise_distinct n.ip_list m.ip_list)

abbrev pub has_ip : Bytes → List Ip → Bool
has_ip s [] = false
has_ip s (x ∷ xs) = str_eq x.ip s || has_ip s xs

abbrev pub all_in : List Ip → List Ip → Bool
all_in [] ys = true
all_in (x ∷ xs) ys = has_ip x.ip ys && all_in xs ys

-- No two addresses have the same text.
abbrev pub distinct_ips : List Ip → Bool
distinct_ips [] = true
distinct_ips (x ∷ xs) = not (has_ip x.ip xs) && distinct_ips xs
