-- ===== src/NodeInfo/IpMerge/Addresses.antt =====
-- Which addresses the merge of `ip_list_merge` holds.
use vpnp2p.Prelude.{
  ℕ, zero, suc, ◌≡◌, refl, ap, ◌∙◌, true, false, ◌||◌, Option, none, some, List, [], ◌∷◌, ◌++◌,
  arith, length, get_elem?, Bool-cases, Option-cases, inl, inr,
}
use vpnp2p.CString.Equal.{str_eq_iff}
use vpnp2p.CString.{Bytes, str_eq}
use vpnp2p.NodeInfo.Compare.Values.{has_ip}
use vpnp2p.NodeInfo.IpMerge.Spec.{◌>>=◌, meet, meet_all, meet_own, ip_merge}
use vpnp2p.NodeInfo.Values.{Ip}

-- The addresses of the first list and of the second, and no others.
abbrev pub Gathers : List Ip → List Ip → Option (List Ip) → Type 0
Gathers xs ys none = Unit {0}
Gathers xs ys (some zs) = (s : Bytes) → has_ip s zs ≡ (has_ip s xs || has_ip s ys)

-- The same addresses, if there is a list.
abbrev Keeps : List Ip → Option (List Ip) → Type 0
Keeps xs none = Unit {0}
Keeps xs (some zs) = (s : Bytes) → has_ip s zs ≡ has_ip s xs

Keeps-step :
    (xs zs : List Ip) (o : Option (List Ip))
    → ((s : Bytes) → has_ip s zs ≡ has_ip s xs)
    → Keeps zs o
    → Keeps xs o
Keeps-step xs zs none e k = tt
Keeps-step xs zs (some us) e k = λ s. k s ∙ e s

Keeps-bind :
    (xs : List Ip) (o : Option (List Ip)) (f : List Ip → Option (List Ip))
    → Keeps xs o
    → ((zs : List Ip) → Keeps zs (f zs))
    → Keeps xs (o >>= f)
Keeps-bind xs none f k all = tt
Keeps-bind xs (some zs) f k all = Keeps-step xs zs (f zs) k (all zs)

meet-ip : (x y x' : Ip) → meet x y ≡ some x' → x'.ip ≡ x.ip
unfolding meet
meet-ip x y x' e = ground (arith, str_eq_iff x.ip y.ip)

Keeps-cons :
    (x : Ip) (o : Option Ip) (xs : List Ip) (r : Option (List Ip))
    → ((x' : Ip) → o ≡ some x' → x'.ip ≡ x.ip)
    → Keeps xs r
    → Keeps (x ∷ xs) (do x' ← o; xs' ← r; some (x' ∷ xs'))
Keeps-cons x none xs r same k = tt
Keeps-cons x (some x') xs none same k = tt
Keeps-cons x (some x') xs (some zs) same k = λ s. rw (same x' refl, k s) refl

meet_all-Keeps : (xs : List Ip) (y : Ip) → Keeps xs (meet_all xs y)
unfolding meet_all
meet_all-Keeps [] y = λ s. refl
meet_all-Keeps (x ∷ xs) y =
    Keeps-cons x (meet x y) xs (meet_all xs y) (meet-ip x y) (meet_all-Keeps xs y)

meet_own-Keeps : (n i : ℕ) (xs : List Ip) → Keeps xs (meet_own n i xs)
unfolding meet_own
meet_own-Keeps zero i xs = λ s. refl
meet_own-Keeps (suc n) i xs = elim (Option-cases (get_elem? xs i)) [
  | inl e ↦ rw (Keeps, e) (λ s. refl)
  | inr (x, e) ↦
      rw (Keeps, e)
        (Keeps-bind xs (meet_all xs x) (meet_own n (suc i)) (meet_all-Keeps xs x)
          (meet_own-Keeps n (suc i)))
]

has_ip-append : (s : Bytes) (xs ys : List Ip) → has_ip s (xs ++ ys) ≡ (has_ip s xs || has_ip s ys)
has_ip-append s [] ys = refl
has_ip-append s (x ∷ xs) ys = ground (arith, has_ip-append s xs ys)

Keeps-Gathers : (xs ys : List Ip) (o : Option (List Ip)) → Keeps (xs ++ ys) o → Gathers xs ys o
Keeps-Gathers xs ys none k = tt
Keeps-Gathers xs ys (some zs) k = λ s. k s ∙ has_ip-append s xs ys

has_ip-known :
    (s : Bytes) (y : Ip) (xs ys : List Ip)
    → has_ip y.ip xs ≡ true
    → (has_ip s xs || has_ip s ys) ≡ (has_ip s xs || has_ip s (y ∷ ys))
has_ip-known s y xs ys k = elim (Bool-cases (str_eq y.ip s)) [
  | inl e ↦
      let same = (str_eq_iff y.ip s).0 e in
      let k' : has_ip s xs ≡ true = rw (← same) k in ground arith
  | inr e ↦ ground arith
]

Gathers-known :
    (y : Ip) (xs zs ys : List Ip) (o : Option (List Ip))
    → has_ip y.ip xs ≡ true
    → ((s : Bytes) → has_ip s zs ≡ has_ip s xs)
    → Gathers zs ys o
    → Gathers xs (y ∷ ys) o
Gathers-known y xs zs ys none k same g = tt
Gathers-known y xs zs ys (some us) k same g =
    λ s. g s ∙ ap (λ b. b || has_ip s ys) (same s) ∙ has_ip-known s y xs ys k

Gathers-bind :
    (y : Ip) (xs ys : List Ip) (o : Option (List Ip)) (f : List Ip → Option (List Ip))
    → has_ip y.ip xs ≡ true
    → Keeps xs o
    → ((zs : List Ip) → Gathers zs ys (f zs))
    → Gathers xs (y ∷ ys) (o >>= f)
Gathers-bind y xs ys none f k kept all = tt
Gathers-bind y xs ys (some zs) f k kept all = Gathers-known y xs zs ys (f zs) k kept (all zs)

has_ip_nil : (s : Bytes) (xs : List Ip) → has_ip s xs ≡ (has_ip s xs || false)
has_ip_nil s xs = ground arith

pub ip_merge-Gathers : (xs ys : List Ip) → Gathers xs ys (ip_merge xs ys)
unfolding ip_merge
ip_merge-Gathers xs [] = λ s. has_ip_nil s xs
ip_merge-Gathers xs (y ∷ ys) = elim (Bool-cases (has_ip y.ip xs)) [
  | inl k ↦ rw k (
      Gathers-bind y xs ys (meet_all xs y) (λ zs. ip_merge zs ys) k (meet_all-Keeps xs y)
        (λ zs. ip_merge-Gathers zs ys))
  | inr k ↦ rw k (
      Keeps-Gathers xs (y ∷ ys) (meet_own (length ys) (suc (length xs)) (xs ++ y ∷ ys))
        (meet_own-Keeps (length ys) (suc (length xs)) (xs ++ y ∷ ys)))
]
