-- ===== src/NodeInfo/IpMerge/Own.antt =====
-- The outer loop of `ip_list_merge` behind the first unknown address: the rest of the second list is
-- then the end of the first, and meets it.
use vpnp2p.Prelude.{
  ℕ, zero, suc, ◌<◌, ◌≡◌, refl, sym, ap, ◌∙◌, true, false, not, Option, none, some, List, [], ◌∷◌,
  ◌++◌, ℤ, pos, negsuc, arith, length, Option-cases, inl, inr, get_elem?, length-append,
}
use mathlib.Core.List.{append_assoc}
use vpnp2p.NodeInfo.Access.{not_null, load_ip-ok}
use vpnp2p.NodeInfo.Chain.{IpChain}
use vpnp2p.NodeInfo.Compare.Values.{has_ip}
use vpnp2p.NodeInfo.Heap.{Ptr, null, Heap, ok}
use vpnp2p.NodeInfo.IpMerge.Apart.{get_elem?-infos, has_ip-infos, Walk-IpChain}
use vpnp2p.NodeInfo.IpMerge.Defs.{meet_ips, append_ip, merge_ips}
use vpnp2p.NodeInfo.IpMerge.Meets.{met_all, MeetsAll, MeetsAll-Walk, meet_ips-MeetsAll}
use vpnp2p.NodeInfo.IpMerge.Spec.{◌>>=◌, meet_all, meet_own}
use vpnp2p.NodeInfo.IpMerge.Walk.{AllEnd, Walk, infos, Distinct}
use vpnp2p.NodeInfo.Values.{Ip}

-- What the function returns, and what it leaves at the first list.
abbrev pub code : Option (List Ip) → ℤ
code none = negsuc 0
code (some xs) = pos 1

abbrev pub Leaves : Heap → Ptr → Option (List Ip) → Type 0
Leaves h p none = Unit {0}
Leaves h p (some xs) = IpChain h.ips h.brk p xs

module _ (fuel inner : ℕ) (p t b : Ptr) (h h₁ : Heap) (b_pos : 0 < b) (b_low : b < h₁.brk) where
  pub merge_ips_conflict :
      meet_ips inner p b true h ≡ ok none h₁ → merge_ips inner (suc fuel) p t b h ≡ ok (negsuc 0) h₁
  unfolding merge_ips
  merge_ips_conflict run = rw (not_null b b_pos, run) refl

  pub merge_ips_known :
      meet_ips inner p b true h ≡ ok (some false) h₁
      → merge_ips inner (suc fuel) p t b h ≡ merge_ips inner fuel p t (h₁.ips b).next_ip h₁
  unfolding merge_ips append_ip
  merge_ips_known run = rw (not_null b b_pos, run) (rw (load_ip-ok b h₁ b_pos b_low) refl)

-- The result at the first list does not depend on how it is written.
pub Leaves-eq :
    (h : Heap) (p : Ptr) (o o' : Option (List Ip)) → o ≡ o' → Leaves h p o → Leaves h p o'
Leaves-eq h p o o' e l = rw (← e) l

meet_own_step :
    (n i : ℕ) (xs : List Ip) (x : Ip)
    → get_elem? xs i ≡ some x
    → meet_own (suc n) i xs ≡ (meet_all xs x >>= meet_own n (suc i))
unfolding meet_own
meet_own_step n i xs x e = rw (e, meet_own) refl

-- The loop ends with the value for that list, and leaves it.
abbrev pub Ends : ℕ → ℕ → Ptr → Ptr → Ptr → Heap → Option (List Ip) → Type 0
Ends fuel inner p t q h o =
    (h' : Heap) × (merge_ips inner fuel p t q h ≡ ok (code o) h') × Leaves h' p o

-- One turn on an address that the list has.
module _ (fuel inner : ℕ) (p t q b : Ptr) (cells : List Ptr) (h h₁ : Heap) (at : q ≡ b)
    (b_pos : 0 < b) (b_low : b < h.brk)
    (run : meet_ips inner p b true h
      ≡ ok
          (met_all
            (meet_all (infos h.ips cells) (h.ips b).info)
            true
            (has_ip (h.ips b).ip (infos h.ips cells)))
          h₁)
    (m : MeetsAll cells b h h₁) (o : Option (List Ip)) where
  here : merge_ips inner (suc fuel) p t q h ≡ merge_ips inner (suc fuel) p t b h
  here = ap (λ a. merge_ips inner (suc fuel) p t a h) at

  pub Ends-conflict :
      meet_all (infos h.ips cells) (h.ips b).info ≡ none
      → o ≡ none
      → Ends (suc fuel) inner p t q h o
  Ends-conflict e r =
      let size = m.brk in
      (
        h₁,
        here
            ∙ merge_ips_conflict fuel inner p t b h h₁ b_pos (omega arith)
                (run ∙ ap (λ u. ok (met_all u true (has_ip (h.ips b).ip (infos h.ips cells))) h₁) e)
            ∙ ap (λ u. ok (code u) h₁) (sym r),
        Leaves-eq h₁ p none o (sym r) tt,
      )

  pub Ends-known :
      (zs : List Ip) (o' : Option (List Ip))
      → meet_all (infos h.ips cells) (h.ips b).info ≡ some zs
      → has_ip (h.ips b).ip (infos h.ips cells) ≡ true
      → o' ≡ o
      → Ends fuel inner p t (h.ips b).next_ip h₁ o'
      → Ends (suc fuel) inner p t q h o
  Ends-known zs o' e k same (h₂, rest, leaves) =
      let size = m.brk in
      let met : meet_ips inner p b true h ≡ ok (some false) h₁ =
        run
        ∙ ap (λ u. ok (met_all u true (has_ip (h.ips b).ip (infos h.ips cells))) h₁) e
        ∙ ap (λ v. ok (some (not v)) h₁) k in
      (
        h₂,
        here
            ∙ merge_ips_known fuel inner p t b h h₁ b_pos (omega arith) met
            ∙ ap (λ a. merge_ips inner fuel p t a h₁) (m.links b)
            ∙ rest
            ∙ ap (λ u. ok (code u) h₂) same,
        Leaves-eq h₂ p o' o same leaves,
      )

pub merge_ips-own :
    (fuel inner : ℕ) (p t q : Ptr) (cells before others : List Ptr) (h : Heap)
    → length cells < inner
    → length others < fuel
    → before ++ others ≡ cells
    → Walk h.ips h.brk p cells null
    → Walk h.ips h.brk q others null
    → Distinct cells
    → AllEnd h
    → Ends fuel inner p t q h (meet_own (length others) (length before) (infos h.ips cells))
merge_ips-own zero inner p t q cells before others h room room₂ e w v d ends = elim room₂ [ ]
merge_ips-own (suc fuel) inner p t q cells before [] h room room₂ e w v d ends = (
  h,
  unfold merge_ips meet_own in rw v refl,
  unfold meet_own in Walk-IpChain h.ips h.brk p cells w,
)
merge_ips-own (suc fuel) inner p t q cells before (b ∷ others) h room room₂ e w
      (at, b_pos, b_low, rest) d ends =
    let x = (h.ips b).info in
    let xs = infos h.ips cells in
    let (h₁, run, m) = meet_ips-MeetsAll inner p b cells true h room w d b_pos b_low ends in
    let here : get_elem? xs (length before) ≡ some x =
      ap (λ l. get_elem? (infos h.ips l) (length before)) (sym e)
      ∙ get_elem?-infos h.ips b before others in
    let known : has_ip x.ip xs ≡ true =
      ap (λ l. has_ip x.ip (infos h.ips l)) (sym e) ∙ has_ip-infos h.ips b before others in
    let step = meet_own_step (length others) (length before) xs x here in
    let goal = meet_own (suc (length others)) (length before) xs in
    elim (Option-cases (meet_all xs x)) [
      | inl none_left ↦
          Ends-conflict fuel inner p t q b cells h h₁ at b_pos b_low run m goal none_left
            (step ∙ rw none_left refl)
      | inr (ys, left) ↦
          let before' = before ++ b ∷ [] in
          let up = MeetsAll-Walk cells b h h₁ m in
          let count : length before' ≡ suc (length before) =
            length-append before (b ∷ []) ∙ omega arith in
          let total : meet_own (length others) (length before') (infos h₁.ips cells) ≡ goal =
            ap (λ l. meet_own (length others) (length before') l) (m.values ys left)
            ∙ ap (λ i. meet_own (length others) i ys) count
            ∙ sym (step ∙ ap (λ o. o >>= meet_own (length others) (suc (length before))) left) in
          Ends-known fuel inner p t q b cells h h₁ at b_pos b_low run m goal ys
            (meet_own (length others) (length before') (infos h₁.ips cells)) left known total
            (merge_ips-own fuel inner p t (h.ips b).next_ip cells before' others h₁ room
              (omega arith) (append_assoc before (b ∷ []) others ∙ e) (up p cells w)
              (up (h.ips b).next_ip others rest) d m.ends)
    ]
