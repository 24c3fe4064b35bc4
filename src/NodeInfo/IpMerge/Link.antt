-- ===== src/NodeInfo/IpMerge/Link.antt =====
-- The end of the first list, and the link that `ip_list_merge` makes there.
use vpnp2p.Prelude.{
  ℕ, zero, suc, ◌<◌, ◌≡◌, refl, sym, ap, ◌∙◌, true, false, some, List, [], ◌∷◌, ◌++◌, arith, length,
  ==-cases, inl, inr, length-append,
}
use mathlib.Core.List.{map-append}
use vpnp2p.NodeInfo.Access.{not_null, load_ip-ok}
use vpnp2p.NodeInfo.Compare.Values.{has_ip}
use vpnp2p.NodeInfo.Heap.{Ptr, null, IpCell, Heap, ok}
use vpnp2p.NodeInfo.IpMerge.Apart.{Distinct-left, LastCell, LastCell-Outside, Walk-link}
use vpnp2p.NodeInfo.IpMerge.Defs.{find_ip_tail, meet_ips, append_ip, merge_ips}
use vpnp2p.NodeInfo.IpMerge.Meets.{MeetsAll, MeetsAll-Walk}
use vpnp2p.NodeInfo.IpMerge.Spec.{◌>>=◌, meet_all, meet_own, ip_merge}
use vpnp2p.NodeInfo.IpMerge.Walk.{
  AllEnd, Walk, Walk-Outside, infos, infos_same, length-infos, Distinct,
}
use vpnp2p.NodeInfo.Parse.Writes.{with_ip, set_next_ip-ok}
use vpnp2p.NodeInfo.Values.{Ip}

pub find_ip_tail-LastCell :
    (fuel : ℕ) (p a : Ptr) (cells : List Ptr) (h : Heap)
    → length cells < fuel
    → Walk h.ips h.brk p (a ∷ cells) null
    → (t : Ptr) × (find_ip_tail fuel p h ≡ ok t h) × LastCell t (a ∷ cells) × (0 < t) × (t < h.brk)
unfolding find_ip_tail
find_ip_tail-LastCell zero p a cells h room w = elim room [ ]
find_ip_tail-LastCell (suc fuel) p a [] h room (at, positive, low, end) =
    (a, rw (at, load_ip-ok a h positive low, end) refl, refl, positive, low)
find_ip_tail-LastCell (suc fuel) p a (b ∷ cells) h room
      (at, positive, low, (next, b_pos, b_low, rest)) =
    let (t, run, last, t_pos, t_low) =
      find_ip_tail-LastCell fuel (h.ips a).next_ip b cells h (omega arith)
        (next, b_pos, b_low, rest) in
    let onward = not_null (h.ips a).next_ip (omega arith) in
    (t, rw (at, load_ip-ok a h positive low, onward) run, last, t_pos, t_low)

-- The heap in which the first list is linked to the address at `b`.
abbrev pub linked : Heap → Ptr → Ptr → Heap
linked h t b = with_ip h t (record (h.ips t) { next_ip = b })

linked-next_ip : (h : Heap) (t b : Ptr) → ((linked h t b).ips t).next_ip ≡ b
linked-next_ip h t b = ground arith

linked-info_self : (h : Heap) (t b : Ptr) → ((linked h t b).ips t).info ≡ (h.ips t).info
linked-info_self h t b = ground arith

linked-info : (h : Heap) (t b a : Ptr) → ((linked h t b).ips a).info ≡ (h.ips a).info
linked-info h t b a = elim (==-cases a t) [
  | inl q ↦ rw q (linked-info_self h t b)
  | inr ne ↦ ground arith
]

pub linked-AllEnd : (h : Heap) (t b : Ptr) → AllEnd h → AllEnd (linked h t b)
linked-AllEnd h t b ends a low = rw (linked-info h t b a) (ends a low)

pub merge_ips_unknown :
    (fuel inner : ℕ) (p t b : Ptr) (h h₁ : Heap)
    → 0 < b
    → b < h₁.brk
    → 0 < t
    → t < h₁.brk
    → meet_ips inner p b true h ≡ ok (some true) h₁
    → merge_ips inner (suc fuel) p t b h
      ≡ merge_ips inner fuel p b ((linked h₁ t b).ips b).next_ip (linked h₁ t b)
unfolding merge_ips append_ip
merge_ips_unknown fuel inner p t b h h₁ b_pos b_low t_pos t_low run =
    let g = linked h₁ t b in
    rw (not_null b b_pos, run)
      (rw (set_next_ip-ok t h₁ t_pos t_low b) (
        rw (load_ip-ok t g t_pos t_low)
          (rw (linked-next_ip h₁ t b) (rw (load_ip-ok b g b_pos b_low) refl))))

pub ip_merge_known :
    (xs ys : List Ip) (y : Ip)
    → has_ip y.ip xs ≡ true
    → ip_merge xs (y ∷ ys) ≡ (meet_all xs y >>= λ xs'. ip_merge xs' ys)
unfolding ip_merge
ip_merge_known xs ys y e = rw e refl

ip_merge_unknown :
    (xs ys : List Ip) (y : Ip)
    → has_ip y.ip xs ≡ false
    → ip_merge xs (y ∷ ys) ≡ meet_own (length ys) (suc (length xs)) (xs ++ y ∷ ys)
unfolding ip_merge
ip_merge_unknown xs ys y e = rw e refl

-- The values of both lists behind the link.
pub linked-infos :
    (h h₁ : Heap) (t b : Ptr) (cells others : List Ptr)
    → infos h₁.ips cells ≡ infos h.ips cells
    → infos h₁.ips others ≡ infos h.ips others
    → infos (linked h₁ t b).ips (cells ++ others) ≡ infos h.ips cells ++ infos h.ips others
linked-infos h h₁ t b cells others e e₂ =
    infos_same h₁.ips (linked h₁ t b).ips (cells ++ others) (linked-info h₁ t b)
    ∙ map-append (λ a. (h₁.ips a).info) cells others
    ∙ ap (λ l. l ++ infos h₁.ips others) e
    ∙ ap (λ l. infos h.ips cells ++ l) e₂

-- The walk along both lists behind the link.
pub linked-Walk :
    (p t b : Ptr) (cells others : List Ptr) (h h₁ : Heap)
    → Walk h.ips h.brk p cells null
    → Walk h.ips h.brk b (b ∷ others) null
    → Distinct (cells ++ b ∷ others)
    → LastCell t cells
    → MeetsAll cells b h h₁
    → Walk (linked h₁ t b).ips (linked h₁ t b).brk b (b ∷ others) null
      × Walk (linked h₁ t b).ips (linked h₁ t b).brk p (cells ++ b ∷ others) null
linked-Walk p t b cells others h h₁ w v d last m =
    let up = MeetsAll-Walk cells b h h₁ m in
    let tail =
      Walk-Outside h₁.ips h₁.brk t b (record (h₁.ips t) { next_ip = b }) (b ∷ others) null
        (LastCell-Outside t cells (b ∷ others) last d) (up b (b ∷ others) v) in
    (
      tail,
      Walk-link h₁.ips h₁.brk p t b cells (b ∷ others) last (Distinct-left cells (b ∷ others) d)
          (up p cells w) tail,
    )

-- The values of the first list are before the link what they were.
pub meet_own-linked :
    (h : Heap) (f : Ptr → IpCell) (b : Ptr) (cells others : List Ptr)
    → infos f (cells ++ b ∷ others) ≡ infos h.ips cells ++ infos h.ips (b ∷ others)
    → has_ip (h.ips b).ip (infos h.ips cells) ≡ false
    → meet_own (length others) (length (cells ++ b ∷ [])) (infos f (cells ++ b ∷ others))
      ≡ ip_merge (infos h.ips cells) (infos h.ips (b ∷ others))
meet_own-linked h f b cells others values k =
    let both_lists = infos h.ips cells ++ infos h.ips (b ∷ others) in
    let count : length (cells ++ b ∷ []) ≡ suc (length (infos h.ips cells)) =
      length-append cells (b ∷ []) ∙ omega (arith, length-infos h.ips cells) in
    ap (meet_own (length others) (length (cells ++ b ∷ []))) values
    ∙ ap (λ i. meet_own (length others) i both_lists) count
    ∙ ap (λ n. meet_own n (suc (length (infos h.ips cells))) both_lists)
        (sym (length-infos h.ips others))
    ∙ sym (ip_merge_unknown (infos h.ips cells) (infos h.ips others) (h.ips b).info k)
