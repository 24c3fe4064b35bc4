-- ===== src/NodeInfo/IpMerge/Refines.antt =====
-- `ip_list_merge` computes `ip_merge`.
use vpnp2p.Prelude.{
  ℕ, zero, suc, ◌<◌, ◌≡◌, refl, sym, ap, ◌∙◌, true, false, not, some, List, [], ◌∷◌, ◌++◌, arith,
  length, Option-cases, Bool-cases, inl, inr, length-append,
}
use mathlib.Core.List.{append_assoc}
use vpnp2p.NodeInfo.Compare.Values.{has_ip}
use vpnp2p.NodeInfo.Heap.{Ptr, null, Heap, ok}
use vpnp2p.NodeInfo.IpMerge.Addresses.{Gathers, ip_merge-Gathers}
use vpnp2p.NodeInfo.IpMerge.Apart.{Distinct-left, Distinct-mid, infos_apart, LastCell, Walk-IpChain}
use vpnp2p.NodeInfo.IpMerge.Defs.{meet_ips, merge_ips, ip_list_merge}
use vpnp2p.NodeInfo.IpMerge.Link.{
  find_ip_tail-LastCell, linked, linked-AllEnd, merge_ips_unknown, ip_merge_known, linked-infos,
  linked-Walk, meet_own-linked,
}
use vpnp2p.NodeInfo.IpMerge.Meets.{MeetsAll, MeetsAll-Walk, met_all, meet_ips-MeetsAll}
use vpnp2p.NodeInfo.IpMerge.Own.{
  code, Leaves, Leaves-eq, Ends, Ends-conflict, Ends-known, merge_ips-own,
}
use vpnp2p.NodeInfo.IpMerge.Spec.{◌>>=◌, meet_all, meet_all_unknown, ip_merge}
use vpnp2p.NodeInfo.IpMerge.Walk.{AllEnd, Walk, infos, Distinct}

-- The rest of the second list, from the unknown address at `b` on, has become the end of the first.
unknown-Ends :
    (fuel inner : ℕ) (p t b : Ptr) (cells others : List Ptr) (h h₁ : Heap)
    → length (cells ++ b ∷ others) < inner
    → length others < fuel
    → Walk h.ips h.brk p cells null
    → Walk h.ips h.brk b (b ∷ others) null
    → Distinct (cells ++ b ∷ others)
    → LastCell t cells
    → 0 < t
    → t < h.brk
    → MeetsAll cells b h h₁
    → infos h₁.ips cells ≡ infos h.ips cells
    → meet_ips inner p b true h ≡ ok (some true) h₁
    → has_ip (h.ips b).ip (infos h.ips cells) ≡ false
    → Ends (suc fuel) inner p t b h (ip_merge (infos h.ips cells) (infos h.ips (b ∷ others)))
unknown-Ends fuel inner p t b cells others h h₁ room room₂ w (at, b_pos, b_low, rest) d last t_pos
      t_low m same run k =
    let size = m.brk in
    let g = linked h₁ t b in
    let whole = cells ++ b ∷ others in
    let (tail, chain) = linked-Walk p t b cells others h h₁ w (at, b_pos, b_low, rest) d last m in
    let (h₂, run₂, leaves) =
      merge_ips-own fuel inner p b (g.ips b).next_ip whole (cells ++ b ∷ []) others g room room₂
        (append_assoc cells (b ∷ []) others) chain tail.3 d (linked-AllEnd h₁ t b m.ends) in
    let total =
      meet_own-linked h g.ips b cells others
        (linked-infos h h₁ t b cells (b ∷ others) same
          (infos_apart h.ips h₁.ips cells (b ∷ others) m.outside d))
        k in
    (
      h₂,
      merge_ips_unknown fuel inner p t b h h₁ b_pos (omega arith) t_pos (omega arith) run
          ∙ run₂
          ∙ ap (λ o. ok (code o) h₂) total,
      Leaves-eq h₂ p _ _ total leaves,
    )

merge_ips-ip_merge :
    (fuel inner : ℕ) (p t q : Ptr) (cells others : List Ptr) (h : Heap)
    → length (cells ++ others) < inner
    → length others < fuel
    → Walk h.ips h.brk p cells null
    → Walk h.ips h.brk q others null
    → Distinct (cells ++ others)
    → AllEnd h
    → LastCell t cells
    → 0 < t
    → t < h.brk
    → Ends fuel inner p t q h (ip_merge (infos h.ips cells) (infos h.ips others))
merge_ips-ip_merge zero inner p t q cells others h room room₂ w v d ends last t_pos t_low =
    elim room₂ [ ]
merge_ips-ip_merge (suc fuel) inner p t q cells [] h room room₂ w v d ends last t_pos t_low = (
  h,
  unfold merge_ips ip_merge in rw v refl,
  unfold ip_merge in Walk-IpChain h.ips h.brk p cells w,
)
merge_ips-ip_merge (suc fuel) inner p t q cells (b ∷ others) h room room₂ w (at, b_pos, b_low, rest)
      d ends last t_pos t_low =
    let xs = infos h.ips cells in
    let y = (h.ips b).info in
    let ys = infos h.ips others in
    let all = length-append cells (b ∷ others) in
    let (h₁, run, m) =
      meet_ips-MeetsAll inner p b cells true h (omega arith) w (Distinct-left cells (b ∷ others) d)
        b_pos b_low ends in
    let goal = ip_merge xs (y ∷ ys) in
    elim (Bool-cases (has_ip y.ip xs)) [
      | inl k ↦
          let step = ip_merge_known xs ys y k in
          elim (Option-cases (meet_all xs y)) [
            | inl e ↦
                Ends-conflict fuel inner p t q b cells h h₁ at b_pos b_low run m goal e
                  (step ∙ ap (λ o. o >>= λ zs. ip_merge zs ys) e)
            | inr (zs, e) ↦
                let d' = (Distinct-mid b cells others d).1 in
                let up = MeetsAll-Walk cells b h h₁ m in
                let size = m.brk in
                let total : ip_merge (infos h₁.ips cells) (infos h₁.ips others) ≡ goal =
                  ap (λ l. ip_merge l (infos h₁.ips others)) (m.values zs e)
                  ∙ ap (ip_merge zs) (infos_apart h.ips h₁.ips cells others m.outside d')
                  ∙ sym (step ∙ ap (λ o. o >>= λ l. ip_merge l ys) e) in
                Ends-known fuel inner p t q b cells h h₁ at b_pos b_low run m goal zs
                  (ip_merge (infos h₁.ips cells) (infos h₁.ips others)) e k total
                  (merge_ips-ip_merge fuel inner p t (h.ips b).next_ip cells others h₁
                    (omega (arith, length-append cells others)) (omega arith) (up p cells w)
                    (up (h.ips b).next_ip others rest) d' m.ends last t_pos (omega arith))
          ]
      | inr k ↦
          let same = meet_all_unknown xs y k in
          let met : meet_ips inner p b true h ≡ ok (some true) h₁ =
            run
            ∙ ap (λ o. ok (met_all o true (has_ip y.ip xs)) h₁) same
            ∙ ap (λ o. ok (some (not o)) h₁) k in
          let (h₂, run₂, leaves) =
            unknown-Ends fuel inner p t b cells others h h₁ room (omega arith) w
              (refl, b_pos, b_low, rest) d last t_pos t_low m (m.values xs same) met k in
          (h₂, ap (λ a. merge_ips inner (suc fuel) p t a h) at ∙ run₂, leaves)
    ]

-- The first list has an address, the cells of the two lists are pairwise different, the strings in
-- the allocated cells end within their arrays, and the fuel exceeds both lists together. Then
-- `ip_list_merge` ends. Where `ip_merge` finds a conflict it returns -1. Otherwise it returns 1 and
-- leaves at the first argument the list that `ip_merge` computes, which has an address if and only if
-- one of the two lists has it.
pub ip_list_merge-ip_merge :
    (fuel : ℕ) (p q a : Ptr) (cells others : List Ptr) (h : Heap)
    → length (a ∷ cells ++ others) < fuel
    → Walk h.ips h.brk p (a ∷ cells) null
    → Walk h.ips h.brk q others null
    → Distinct (a ∷ cells ++ others)
    → AllEnd h
    → (h' : Heap) × (ip_list_merge fuel p q h
        ≡ ok (code (ip_merge (infos h.ips (a ∷ cells)) (infos h.ips others))) h')
      × Leaves h' p (ip_merge (infos h.ips (a ∷ cells)) (infos h.ips others))
      × Gathers
          (infos h.ips (a ∷ cells))
          (infos h.ips others)
          (ip_merge (infos h.ips (a ∷ cells)) (infos h.ips others))
unfolding ip_list_merge
ip_list_merge-ip_merge fuel p q a cells others h room w v d ends =
    let sum = length-append cells others in
    let (t, run, last, t_pos, t_low) = find_ip_tail-LastCell fuel p a cells h (omega arith) w in
    let (h', merged, leaves) =
      merge_ips-ip_merge fuel fuel p t q (a ∷ cells) others h room (omega arith) w v d ends last
        t_pos t_low in
    (h', rw run merged, leaves, ip_merge-Gathers (infos h.ips (a ∷ cells)) (infos h.ips others))
