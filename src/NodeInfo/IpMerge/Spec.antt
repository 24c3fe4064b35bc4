-- ===== src/NodeInfo/IpMerge/Spec.antt =====
-- What `ip_list_merge` computes, on lists of addresses.
use vpnp2p.Prelude.{
  ℕ, zero, suc, ◌≡◌, refl, true, false, not, ◌&&◌, Option, none, some, List, [], ◌∷◌, ◌++◌, ℤ, pos,
  negsuc, eq_ℤ, ltb_ℤ, arith, if◌then◌else◌, length, get_elem?,
}
use vpnp2p.CString.Equal.{str_eq_refl}
use vpnp2p.CString.{str_eq}
use vpnp2p.NodeInfo.Compare.Values.{has_ip}
use vpnp2p.NodeInfo.Values.{Ip}

infixl 5 ◌>>=◌
abbrev pub ◌>>=◌ : {A B : Type 0} → Option A → (A → Option B) → Option B
none >>= f = none
some a >>= f = f a

-- An address after it has met another: the later version of the same address replaces it; two
-- versions that are equally late and differ in type are in conflict.
unfoldable pub meet : Ip → Ip → Option Ip
meet x y =
    if not (str_eq x.ip y.ip)
    then some x
    else if ltb_ℤ x.s_count y.s_count
    then some (record x { ip = y.ip; type = y.type; s_count = y.s_count })
    else if eq_ℤ y.s_count x.s_count && not (str_eq y.type x.type)
    then none
    else some x

unfoldable pub meet_all : List Ip → Ip → Option (List Ip)
meet_all [] y = some []
meet_all (x ∷ xs) y = do x' ← meet x y; xs' ← meet_all xs y; some (x' ∷ xs')

-- Each address of the list from the `i`-th on, `n` of them, meets the whole list.
unfoldable pub meet_own : ℕ → ℕ → List Ip → Option (List Ip)
unfolding meet_all
meet_own zero i xs = some xs
meet_own (suc n) i xs = elim (get_elem? xs i) [
  | none ↦ some xs
  | some x ↦ meet_all xs x >>= meet_own n (suc i)
]

-- The first unknown address brings the rest of its list with it.
unfoldable pub ip_merge : List Ip → List Ip → Option (List Ip)
unfolding meet_own
ip_merge xs [] = some xs
ip_merge xs (y ∷ ys) =
    if has_ip y.ip xs
    then (do xs' ← meet_all xs y; ip_merge xs' ys)
    else meet_own (length ys) (suc (length xs)) (xs ++ y ∷ ys)

eq_ℤ_refl : (z : ℤ) → eq_ℤ z z ≡ true
eq_ℤ_refl (pos n) = ground arith
eq_ℤ_refl (negsuc n) = ground arith

pub ltb_ℤ_irrefl : (z : ℤ) → ltb_ℤ z z ≡ false
ltb_ℤ_irrefl (pos n) = ground arith
ltb_ℤ_irrefl (negsuc n) = ground arith

pub meet_itself : (x : Ip) → meet x x ≡ some x
unfolding meet
meet_itself x =
    rw (str_eq_refl x.ip, str_eq_refl x.type, ltb_ℤ_irrefl x.s_count, eq_ℤ_refl x.s_count)

-- A list that lacks an address does not change when it meets it.
pub meet_all_unknown : (xs : List Ip) (y : Ip) → has_ip y.ip xs ≡ false → meet_all xs y ≡ some xs
unfolding meet_all meet
meet_all_unknown [] y e = refl
meet_all_unknown (x ∷ xs) y e = ground (arith, meet_all_unknown xs y)

-- An address that is no earlier, or another one, stays as it is.
pub meet_kept :
    (x y x' : Ip)
    → (str_eq x.ip y.ip && ltb_ℤ x.s_count y.s_count) ≡ false
    → meet x y ≡ some x'
    → x ≡ x'
unfolding meet
meet_kept x y x' e q = ground arith

pub meet_replaced :
    (x y : Ip)
    → (str_eq x.ip y.ip && ltb_ℤ x.s_count y.s_count) ≡ true
    → meet x y ≡ some (record x { ip = y.ip; type = y.type; s_count = y.s_count })
unfolding meet
meet_replaced x y e = ground arith
