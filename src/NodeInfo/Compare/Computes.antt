-- ===== src/NodeInfo/Compare/Computes.antt =====
-- What the comparisons of NodeInfo/node_info.c return.
use vpnp2p.Prelude.{
  ℕ, zero, suc, ◌+◌, ◌<◌, ◌≤◌, ◌≡◌, refl, ap, ◌∙◌, Bool, true, false, not, ◌&&◌, ◌||◌, List, [],
  ◌∷◌, arith, eq_ℤ, ◌==◌, if◌then◌else◌, length,
}
use vpnp2p.CString.{Bytes, str_eq}
use vpnp2p.CString.Equal.{str_eq_refl}
use vpnp2p.NodeInfo.Access.{not_null, load_ip-ok, load_node-ok}
use vpnp2p.NodeInfo.Chain.{IpChain, HoldsNode, NodeChain}
use vpnp2p.NodeInfo.Compare.Defs.{
  same_ips, node_is_identical, contain_node, count_ips, ip_list_length, contain_ip, all_contained,
  ip_list_identical,
}
use vpnp2p.NodeInfo.Compare.Values.{pairwise_distinct, accepted_as_identical, has_ip, all_in}
use vpnp2p.NodeInfo.Heap.{Heap, Cmd, ok, pure}
use vpnp2p.NodeInfo.Merge.Spec.{has_id}
use vpnp2p.NodeInfo.Values.{Ip, Node}

-- A test in front of the rest of a loop.
if_true-or :
    (b c : Bool) (k : Cmd Bool) (h : Heap)
    → k h ≡ ok c h
    → (if b then pure true else k) h ≡ ok (b || c) h
if_true-or true c k h e = refl
if_true-or false c k h e = e

if_false-and :
    (b c : Bool) (k : Cmd Bool) (h : Heap)
    → k h ≡ ok c h
    → (if b then pure false else k) h ≡ ok (not b && c) h
if_false-and true c k h e = refl
if_false-and false c k h e = e

if_not-and :
    (b c : Bool) (k : Cmd Bool) (h : Heap)
    → k h ≡ ok c h
    → (if not b then pure false else k) h ≡ ok (b && c) h
if_not-and true c k h e = e
if_not-and false c k h e = refl

count_ips-length :
    (fuel n p : ℕ) (xs : List Ip) (h : Heap)
    → length xs < fuel
    → IpChain h.ips h.brk p xs
    → count_ips fuel n p h ≡ ok (n + length xs) h
unfolding count_ips
count_ips-length zero n p xs h room c = elim room [ ]
count_ips-length (suc fuel) n p [] h room c = rw c (ap (λ k. ok k h) (omega arith))
count_ips-length (suc fuel) n p (x ∷ xs) h room (positive, low, info, rest) =
    rw
      (
        not_null p positive,
        load_ip-ok p h positive low,
        count_ips-length fuel (n + 1) (h.ips p).next_ip xs h (omega arith) rest,
      )
      (ap (λ k. ok k h) (omega arith))

pub count_ips-all :
    (fuel p : ℕ) (xs : List Ip) (h : Heap)
    → length xs < fuel
    → IpChain h.ips h.brk p xs
    → count_ips fuel 0 p h ≡ ok (length xs) h
count_ips-all fuel p xs h room c =
    count_ips-length fuel 0 p xs h room c ∙ ap (λ k. ok k h) (omega arith)

pub ip_list_length-length :
    (fuel p : ℕ) (xs : List Ip) (h : Heap)
    → length xs < fuel
    → IpChain h.ips h.brk p xs
    → ip_list_length fuel p h ≡ ok (length xs) h
unfolding ip_list_length
ip_list_length-length fuel p xs h room c = count_ips-all fuel p xs h room c

pub contain_ip-has_ip :
    (fuel p : ℕ) (xs : List Ip) (s : Bytes) (h : Heap)
    → length xs < fuel
    → IpChain h.ips h.brk p xs
    → contain_ip fuel p s h ≡ ok (has_ip s xs) h
unfolding contain_ip
contain_ip-has_ip zero p xs s h room c = elim room [ ]
contain_ip-has_ip (suc fuel) p [] s h room c = rw c refl
contain_ip-has_ip (suc fuel) p (x ∷ xs) s h room (positive, low, info, rest) =
    rw (not_null p positive, load_ip-ok p h positive low, info)
      (if_true-or (str_eq x.ip s) (has_ip s xs) (contain_ip fuel (h.ips p).next_ip s) h
        (contain_ip-has_ip fuel (h.ips p).next_ip xs s h (omega arith) rest))

all_contained-all_in :
    (inner fuel p q : ℕ) (xs ys : List Ip) (h : Heap)
    → length xs < fuel
    → length ys < inner
    → IpChain h.ips h.brk p xs
    → IpChain h.ips h.brk q ys
    → all_contained inner fuel p q h ≡ ok (all_in xs ys) h
unfolding all_contained
all_contained-all_in inner zero p q xs ys h room room₂ c d = elim room [ ]
all_contained-all_in inner (suc fuel) p q [] ys h room room₂ c d = rw c refl
all_contained-all_in inner (suc fuel) p q (x ∷ xs) ys h room room₂ (positive, low, info, rest) d =
    rw
      (
        not_null p positive,
        load_ip-ok p h positive low,
        contain_ip-has_ip inner q ys (h.ips p).ip h room₂ d,
        info,
      )
      (if_not-and (has_ip x.ip ys) (all_in xs ys) (all_contained inner fuel (h.ips p).next_ip q) h
        (all_contained-all_in inner fuel (h.ips p).next_ip q xs ys h (omega arith) room₂ rest d))

-- Of two lists shorter than the fuel `ip_list_identical` returns whether they are of one length
-- and the second has every address of the first.
pub ip_list_identical-computes :
    (fuel p q : ℕ) (xs ys : List Ip) (h : Heap)
    → length xs < fuel
    → length ys < fuel
    → IpChain h.ips h.brk p xs
    → IpChain h.ips h.brk q ys
    → ip_list_identical fuel p q h ≡ ok ((length xs == length ys) && all_in xs ys) h
unfolding ip_list_identical
ip_list_identical-computes fuel p q xs ys h room room₂ c d =
    rw (ip_list_length-length fuel p xs h room c, ip_list_length-length fuel q ys h room₂ d)
      (if_not-and (length xs == length ys) (all_in xs ys) (all_contained fuel fuel p q) h
        (all_contained-all_in fuel fuel p q xs ys h room room₂ c d))

same_ips-pairwise_distinct :
    (fuel p q : ℕ) (xs ys : List Ip) (h : Heap)
    → length xs < fuel
    → IpChain h.ips h.brk p xs
    → IpChain h.ips h.brk q ys
    → same_ips fuel p q h ≡ ok (pairwise_distinct xs ys) h
unfolding same_ips
same_ips-pairwise_distinct zero p q xs ys h room c d = elim room [ ]
same_ips-pairwise_distinct (suc fuel) p q [] [] h room c d = rw (c, d) refl
same_ips-pairwise_distinct (suc fuel) p q [] (y ∷ ys) h room c (positive, low, info, rest) =
    rw (c, not_null q positive) refl
same_ips-pairwise_distinct (suc fuel) p q (x ∷ xs) [] h room (positive, low, info, rest) d =
    rw (d, not_null p positive) refl
same_ips-pairwise_distinct (suc fuel) p q (x ∷ xs) (y ∷ ys) h room (positive, low, info, rest)
      (positive₂, low₂, info₂, rest₂) =
    rw
      (
        not_null p positive,
        not_null q positive₂,
        load_ip-ok p h positive low,
        load_ip-ok q h positive₂ low₂,
        info,
        info₂,
      )
      (if_false-and (str_eq x.ip y.ip || str_eq x.type y.type || not (eq_ℤ x.s_count y.s_count))
        (pairwise_distinct xs ys) (same_ips fuel (h.ips p).next_ip (h.ips q).next_ip) h
        (same_ips-pairwise_distinct fuel (h.ips p).next_ip (h.ips q).next_ip xs ys h (omega arith)
          rest rest₂))

-- `node_is_identical`, on fuel that exceeds the first address list, accepts two nodes of the same
-- id and count whose address lists are of one length and whose addresses, one by one, differ in
-- the text and in the type and agree in `s_count`.
pub node_is_identical-computes :
    (fuel p q : ℕ) (n m : Node) (h : Heap)
    → length n.ip_list < fuel
    → 0 < p
    → p < h.brk
    → 0 < q
    → q < h.brk
    → HoldsNode h.ips h.brk (h.nodes p) n
    → HoldsNode h.ips h.brk (h.nodes q) m
    → node_is_identical fuel p q h ≡ ok (accepted_as_identical n m) h
unfolding node_is_identical accepted_as_identical
node_is_identical-computes fuel p q n m h room positive low positive₂ low₂ v w =
    let loop = same_ips fuel (h.nodes p).ip_list (h.nodes q).ip_list in
    let rest = pairwise_distinct n.ip_list m.ip_list in
    rw
      (
        load_node-ok p h positive low,
        load_node-ok q h positive₂ low₂,
        v.id,
        w.id,
        v.node_count,
        w.node_count,
      )
      (if_not-and (eq_ℤ n.id m.id) (eq_ℤ n.node_count m.node_count && rest)
        (if not (eq_ℤ n.node_count m.node_count) then pure false else loop) h
        (if_not-and (eq_ℤ n.node_count m.node_count) rest loop h (
          same_ips-pairwise_distinct fuel (h.nodes p).ip_list (h.nodes q).ip_list n.ip_list
            m.ip_list h room v.ip_list w.ip_list)))

-- On fuel that exceeds its address list, a node with at least one address is not identical to
-- itself.
pub node_is_identical_itself :
    (fuel p : ℕ) (n : Node) (x : Ip) (xs : List Ip) (h : Heap)
    → length n.ip_list < fuel
    → 0 < p
    → p < h.brk
    → HoldsNode h.ips h.brk (h.nodes p) n
    → n.ip_list ≡ x ∷ xs
    → node_is_identical fuel p p h ≡ ok false h
node_is_identical_itself fuel p n x xs h room positive low v e =
    node_is_identical-computes fuel p p n n h room positive low positive low v v
    ∙ ap (λ b. ok b h) (unfold accepted_as_identical in rw (e, str_eq_refl x.ip) (ground arith))

-- On fuel that exceeds the list, `contain_node` returns whether a node of the list has the id of
-- the node.
pub contain_node-has_id :
    (fuel lo hi p q : ℕ) (n : Node) (ns : List Node) (h : Heap)
    → length ns < fuel
    → 0 < q
    → q < h.brk
    → hi ≤ h.brk
    → HoldsNode h.ips h.brk (h.nodes q) n
    → NodeChain h h.brk lo hi p ns
    → contain_node fuel p q h ≡ ok (has_id n.id ns) h
unfolding contain_node
contain_node-has_id zero lo hi p q n ns h room positive low up v c = elim room [ ]
contain_node-has_id (suc fuel) lo hi p q n [] h room positive low up v c = rw c refl
contain_node-has_id (suc fuel) lo hi p q n (m ∷ ns) h room positive low up v
      (positive₂, above, below, w, rest) =
    rw
      (
        not_null p positive₂,
        load_node-ok p h positive₂ (omega arith),
        load_node-ok q h positive low,
        v.id,
        w.id,
      )
      (if_true-or (eq_ℤ m.id n.id) (has_id n.id ns) (contain_node fuel (h.nodes p).next_node q) h (
        contain_node-has_id fuel (suc p) hi (h.nodes p).next_node q n ns h (omega arith) positive
          low up v rest))
