-- ===== src/Join/Addresses.antt =====
-- `judge_local_ip` of JoinTest/node_join.c compares addresses as `ip_list_identical` does.
use vpnp2p.Prelude.{
  ℕ, zero, suc, ◌+◌, ◌≤◌, ◌<◌, ◌≡◌, refl, ap, true, ◌&&◌, Option, none, some, List, [], ◌∷◌, arith,
  ◌==◌, ltb, length,
}
use vpnp2p.CString.{Bytes}
use vpnp2p.Join.Defs.{ip_list_contains, local_ips, all_local, ip_match, node_ips, judge_local_ip}
use vpnp2p.NodeInfo.Access.{not_null, load_ip-ok, load_node-ok}
use vpnp2p.NodeInfo.Chain.{IpChain, HoldsNode}
use vpnp2p.NodeInfo.Compare.Computes.{ip_list_identical-computes}
use vpnp2p.NodeInfo.Compare.Values.{has_ip, all_in}
use vpnp2p.NodeInfo.Compare.{ip_list_identical}
use vpnp2p.NodeInfo.Heap.{Heap, ok}
use vpnp2p.NodeInfo.Values.{Ip, Node}

-- The texts of the addresses, and the slots that hold them.
abbrev pub texts : List Ip → List Bytes
texts [] = []
texts (x ∷ xs) = x.ip ∷ texts xs

abbrev pub slots_of : List Ip → List (Option Bytes)
slots_of [] = none ∷ []
slots_of (x ∷ xs) = some x.ip ∷ slots_of xs

length-texts : (xs : List Ip) → length (texts xs) ≡ length xs
length-texts [] = refl
length-texts (x ∷ xs) = ap suc (length-texts xs)

local_ips-texts :
    (left : ℕ) (xs : List Ip) → length xs ≤ left → local_ips left (slots_of xs) ≡ texts xs
unfolding local_ips
local_ips-texts zero [] fits = refl
local_ips-texts zero (x ∷ xs) fits = elim fits [ ]
local_ips-texts (suc left) [] fits = refl
local_ips-texts (suc left) (x ∷ xs) fits = rw (local_ips-texts left xs (omega arith)) refl

ip_list_contains-has_ip : (xs : List Ip) (s : Bytes) → ip_list_contains (texts xs) s ≡ has_ip s xs
unfolding ip_list_contains
ip_list_contains-has_ip [] s = refl
ip_list_contains-has_ip (x ∷ xs) s = ground (arith, ip_list_contains-has_ip xs s)

all_local-all_in : (xs ys : List Ip) → all_local (texts xs) (texts ys) ≡ all_in xs ys
unfolding all_local
all_local-all_in [] ys = refl
all_local-all_in (x ∷ xs) ys =
    ground (arith, ip_list_contains-has_ip ys x.ip, all_local-all_in xs ys)

ip_match-all_in :
    (xs ys : List Ip)
    → length ys ≤ 10
    → ip_match (texts xs) (slots_of ys) ≡ ((length xs == length ys) && all_in xs ys)
unfolding ip_match
ip_match-all_in xs ys fits =
    rw (local_ips-texts 10 ys fits, length-texts xs, length-texts ys, all_local-all_in xs ys)
      (ground arith)

node_ips-texts :
    (fuel filled p : ℕ) (xs : List Ip) (h : Heap)
    → length xs < fuel
    → filled + length xs ≤ 10
    → IpChain h.ips h.brk p xs
    → node_ips fuel filled p h ≡ ok (texts xs) h
unfolding node_ips
node_ips-texts zero filled p xs h room fits c = elim room [ ]
node_ips-texts (suc fuel) filled p [] h room fits c = rw c refl
node_ips-texts (suc fuel) filled p (x ∷ xs) h room fits (positive, low, info, rest) =
    let inside : ltb filled 10 ≡ true = ground arith in
    rw
      (
        not_null p positive,
        load_ip-ok p h positive low,
        inside,
        info,
        node_ips-texts fuel (filled + 1) (h.ips p).next_ip xs h (omega arith) (omega arith) rest,
      )
      refl

-- If the machine has the addresses of a list, of at most ten like the node's, `judge_local_ip`
-- returns what `ip_list_identical` does for the node's addresses and that list, on fuel that
-- exceeds both.
pub judge_local_ip-identical :
    (fuel p q : ℕ) (n : Node) (ys : List Ip) (h : Heap)
    → 0 < p
    → p < h.brk
    → HoldsNode h.ips h.brk (h.nodes p) n
    → IpChain h.ips h.brk q ys
    → length n.ip_list < fuel
    → length ys < fuel
    → length n.ip_list ≤ 10
    → length ys ≤ 10
    → judge_local_ip fuel p (slots_of ys) h ≡ ip_list_identical fuel (h.nodes p).ip_list q h
unfolding judge_local_ip
judge_local_ip-identical fuel p q n ys h positive low v d room room₂ few few₂ =
    rw
      (
        load_node-ok p h positive low,
        node_ips-texts fuel 0 (h.nodes p).ip_list n.ip_list h room (omega arith) v.ip_list,
        ip_match-all_in n.ip_list ys few₂,
        ip_list_identical-computes fuel (h.nodes p).ip_list q n.ip_list ys h room room₂ v.ip_list d,
      )
      refl
