-- ===== src/NodeInfo/Compare/SameIps.antt =====
-- What `ip_list_identical` finds out about lists without a repeated address.
use vpnp2p.Prelude.{
  ℕ, ◌+◌, ◌<◌, ◌≤◌, ◌≡◌, ◌≢◌, ◌↔◌, refl, sym, ◌∙◌, Bool, true, false, ◌&&◌, List, [], ◌∷◌, arith,
  ◌==◌, if◌then◌else◌, length, Bool-cases, inl, inr,
}
use vpnp2p.CString.{Bytes, str_eq}
use vpnp2p.CString.Equal.{str_eq_iff, str_eq_refl}
use vpnp2p.NodeInfo.Chain.{IpChain}
use vpnp2p.NodeInfo.Compare.Computes.{ip_list_identical-computes}
use vpnp2p.NodeInfo.Compare.Defs.{ip_list_identical}
use vpnp2p.NodeInfo.Compare.Values.{has_ip, all_in, distinct_ips}
use vpnp2p.NodeInfo.Heap.{Heap, ok}
use vpnp2p.NodeInfo.Values.{Ip}

-- The list without the first address of that text.
abbrev without : Bytes → List Ip → List Ip
without s [] = []
without s (x ∷ xs) = if str_eq x.ip s then xs else x ∷ without s xs

length-without :
    (s : Bytes) (xs : List Ip) → has_ip s xs ≡ true → length xs ≡ 1 + length (without s xs)
length-without s [] e = cc
length-without s (x ∷ xs) e = elim (Bool-cases (str_eq x.ip s)) [
  | inl p ↦ rw p (omega arith)
  | inr p ↦ rw p (omega (arith, length-without s xs (ground arith)))
]

has_ip-without :
    (s t : Bytes) (xs : List Ip) → s ≢ t → has_ip t xs ≡ true → has_ip t (without s xs) ≡ true
has_ip-without s t [] ne e = e
has_ip-without s t (x ∷ xs) ne e =
    ground (arith, str_eq_iff x.ip s, str_eq_iff x.ip t, has_ip-without s t xs ne)

all_in-without :
    (s : Bytes) (xs ys : List Ip)
    → has_ip s xs ≡ false
    → all_in xs ys ≡ true
    → all_in xs (without s ys) ≡ true
all_in-without s [] ys out e = refl
all_in-without s (x ∷ xs) ys out e =
    ground (arith, str_eq_iff x.ip s, has_ip-without s x.ip ys, all_in-without s xs ys)

-- A list without repeated addresses is no longer than one that has them all.
length-all_in :
    (xs ys : List Ip) → distinct_ips xs ≡ true → all_in xs ys ≡ true → length xs ≤ length ys
length-all_in [] ys d e = omega arith
length-all_in (x ∷ xs) ys d e =
    let shorter = length-without x.ip ys (ground arith) in
    let rest =
      length-all_in xs (without x.ip ys) (ground arith)
        (all_in-without x.ip xs ys (ground arith) (ground arith)) in
    omega arith

all_in-has_ip :
    (xs ys : List Ip) (s : Bytes) → all_in xs ys ≡ true → has_ip s xs ≡ true → has_ip s ys ≡ true
all_in-has_ip [] ys s e m = cc
all_in-has_ip (x ∷ xs) ys s e m = ground (arith, str_eq_iff x.ip s, all_in-has_ip xs ys s)

has_ip-of_without :
    (s t : Bytes) (xs : List Ip) → has_ip t (without s xs) ≡ true → has_ip t xs ≡ true
has_ip-of_without s t [] e = e
has_ip-of_without s t (x ∷ xs) e = ground (arith, has_ip-of_without s t xs)

-- If it is as long, it has no others.
all_in_same_length :
    (xs ys : List Ip) (s : Bytes)
    → distinct_ips xs ≡ true
    → all_in xs ys ≡ true
    → length xs ≡ length ys
    → has_ip s ys ≡ true
    → has_ip s xs ≡ true
all_in_same_length [] [] s d e n m = m
all_in_same_length [] (y ∷ ys) s d e n m = ground arith
all_in_same_length (x ∷ xs) ys s d e n m =
    let shorter = length-without x.ip ys (ground arith) in
    let inside = all_in-without x.ip xs ys (ground arith) (ground arith) in
    elim (Bool-cases (str_eq x.ip s)) [
      | inl p ↦ rw p refl
      | inr p ↦
          let rest =
            all_in_same_length xs (without x.ip ys) s (ground arith) inside (omega arith)
              (has_ip-without x.ip s ys (λ q. ground (arith, str_eq_iff x.ip s)) m) in
          rw (p, rest) refl
    ]

all_in-intro :
    (xs ys : List Ip)
    → ((s : Bytes) → has_ip s xs ≡ true → has_ip s ys ≡ true)
    → all_in xs ys ≡ true
all_in-intro [] ys f = refl
all_in-intro (x ∷ xs) ys f =
    rw (f x.ip (rw (str_eq_refl x.ip) refl), all_in-intro xs ys (λ s m. f s (ground arith))) refl

-- Of two lists without repeated addresses, each shorter than the fuel, `ip_list_identical` returns
-- whether they have the same addresses.
pub ip_list_identical_iff :
    (fuel p q : ℕ) (xs ys : List Ip) (h : Heap)
    → length xs < fuel
    → length ys < fuel
    → IpChain h.ips h.brk p xs
    → IpChain h.ips h.brk q ys
    → distinct_ips xs ≡ true
    → distinct_ips ys ≡ true
    → (b : Bool) × (ip_list_identical fuel p q h ≡ ok b h)
      × ((b ≡ true) ↔ ((s : Bytes) → has_ip s xs ≡ has_ip s ys))
ip_list_identical_iff fuel p q xs ys h room room₂ c d dx dy = (
  (length xs == length ys) && all_in xs ys,
  ip_list_identical-computes fuel p q xs ys h room room₂ c d,
  (λ e s. same_members s (ground arith) (ground arith), λ f. included f),
)
  where
    same_members :
        (s : Bytes) → length xs ≡ length ys → all_in xs ys ≡ true → has_ip s xs ≡ has_ip s ys
    same_members s n e =
        let forth = all_in-has_ip xs ys s e in
        let back = all_in_same_length xs ys s dx e n in ground arith

    included :
        ((s : Bytes) → has_ip s xs ≡ has_ip s ys)
        → ((length xs == length ys) && all_in xs ys) ≡ true
    included f =
        let forth = all_in-intro xs ys (λ s m. sym (f s) ∙ m) in
        let back = all_in-intro ys xs (λ s m. f s ∙ m) in
        let le = length-all_in xs ys dx forth in
        let ge = length-all_in ys xs dy back in ground arith
