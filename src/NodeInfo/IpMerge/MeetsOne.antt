-- ===== src/NodeInfo/IpMerge/MeetsOne.antt =====
-- One address meets another, in the inner loop of `ip_list_merge`.
use vpnp2p.Prelude.{
  ◌<◌, ◌≡◌, ◌≢◌, refl, sym, ap, ◌∙◌, Bool, true, false, ◌&&◌, Option, none, some, ltb_ℤ, arith,
  both, Bool-cases, ==-cases, inl, inr,
}
use vpnp2p.CString.Equal.{str_eq_iff}
use vpnp2p.CString.{str_eq}
use vpnp2p.NodeInfo.Access.{load_ip-ok}
use vpnp2p.NodeInfo.Heap.{Ptr, IpCell, Heap, ok}
use vpnp2p.NodeInfo.IpMerge.Defs.{meet_ip}
use vpnp2p.NodeInfo.IpMerge.Spec.{meet, meet_kept, meet_replaced, ltb_ℤ_irrefl}
use vpnp2p.NodeInfo.IpMerge.Walk.{AllEnd}
use vpnp2p.NodeInfo.Parse.Writes.{with_ip, set_ip-ok, set_type-ok, set_s_count-ok}
use vpnp2p.NodeInfo.Values.{Ip}

abbrev pub met : Option Ip → Bool → Option Bool
met none same = none
met (some x) same = some same

-- What a write of one cell's values leaves.
pub record MeetsOne (a b : Ptr) (h h' : Heap) : Type 0 where
  pub run :
      meet_ip a b h
      ≡ ok (met (meet (h.ips a).info (h.ips b).info) (str_eq (h.ips a).ip (h.ips b).ip)) h'
  pub value : (x : Ip) → meet (h.ips a).info (h.ips b).info ≡ some x → (h'.ips a).info ≡ x
  pub links : (c : Ptr) → (h'.ips c).next_ip ≡ (h.ips c).next_ip
  pub same : (c : Ptr) → c ≢ a → h'.ips c ≡ h.ips c
  pub itself : (h'.ips b).info ≡ (h.ips b).info
  pub ends : AllEnd h'
  pub nodes : h'.nodes ≡ h.nodes
  pub brk : h'.brk ≡ h.brk

pub some_injective : {A : Type 0} {x y : A} → some x ≡ some y → x ≡ y
some_injective e = cc

module _ (a b : Ptr) (h : Heap) (a_pos : 0 < a) (a_low : a < h.brk) (b_pos : 0 < b)
    (b_low : b < h.brk) (ends : AllEnd h) where
  meet_nothing :
      (str_eq (h.ips a).ip (h.ips b).ip && ltb_ℤ (h.ips a).s_count (h.ips b).s_count) ≡ false
      → MeetsOne a b h h
  meet_nothing e = record {
    run =
        unfold meet_ip meet in
        rw (load_ip-ok a h a_pos a_low, load_ip-ok b h b_pos b_low)
          (ground
            (arith, str_eq_iff (h.ips b).ip (h.ips a).ip, str_eq_iff (h.ips a).ip (h.ips b).ip));
    value = λ x q. meet_kept (h.ips a).info (h.ips b).info x e q;
    links = λ c. refl;
    same = λ c ne. refl;
    itself = refl;
    ends = ends;
    nodes = refl;
    brk = refl;
  }

  meet_newer :
      (str_eq (h.ips a).ip (h.ips b).ip && ltb_ℤ (h.ips a).s_count (h.ips b).s_count) ≡ true
      → (h' : Heap) × MeetsOne a b h h'
  meet_newer e =
      let x = (h.ips a).info in
      let y = (h.ips b).info in
      let (short, short₂) = ends b b_low in
      let (equal, later) = both (str_eq x.ip y.ip) (ltb_ℤ x.s_count y.s_count) e in
      let h₁ = with_ip h a (record (h.ips a) { info = record x { ip = y.ip } }) in
      let h₂ =
        with_ip h₁ a (record (h₁.ips a) { info = record (h₁.ips a).info { type = y.type } }) in
      let h₃ =
        with_ip h₂ a
          (record (h₂.ips a) { info = record (h₂.ips a).info { s_count = y.s_count } }) in
      let taken = record x { ip = y.ip; type = y.type; s_count = y.s_count } in
      let cell : h₃.ips a ≡ record (h.ips a) { info = taken } = ground arith in
      let same : (c : Ptr) → c ≢ a → h₃.ips c ≡ h.ips c = λ c ne. ground arith in
      let replaced = meet_replaced x y e in
      (
        h₃,
        record {
          run =
              unfold meet_ip in
              rw
                (
                  load_ip-ok a h a_pos a_low,
                  load_ip-ok b h b_pos b_low,
                  replaced,
                  equal,
                  later,
                  set_ip-ok a h a_pos a_low y.ip short,
                  set_type-ok a h₁ a_pos a_low y.type short₂,
                  set_s_count-ok a h₂ a_pos a_low y.s_count,
                )
                refl;
          value = λ z q. ap (λ (c : IpCell). c.info) cell ∙ some_injective (sym replaced ∙ q);
          links = λ c. elim (==-cases c a) [
            | inl q ↦ rw q (ap (λ (d : IpCell). d.next_ip) cell)
            | inr ne ↦ ap (λ (d : IpCell). d.next_ip) (same c ne)
          ];
          same = same;
          itself = elim (==-cases b a) [
            | inl q ↦
                let never : ltb_ℤ x.s_count y.s_count ≡ false =
                  ap (λ c. ltb_ℤ x.s_count (h.ips c).s_count) q ∙ ltb_ℤ_irrefl x.s_count in
                cc
            | inr ne ↦ ap (λ (d : IpCell). d.info) (same b ne)
          ];
          ends = λ c low. elim (==-cases c a) [
            | inl q ↦ rw (q, cell) (short, short₂)
            | inr ne ↦ rw (same c ne) (ends c low)
          ];
          nodes = refl;
          brk = refl;
        },
      )

  pub meet_ip-MeetsOne : (h' : Heap) × MeetsOne a b h h'
  meet_ip-MeetsOne =
      elim (Bool-cases
        (str_eq (h.ips a).ip (h.ips b).ip && ltb_ℤ (h.ips a).s_count (h.ips b).s_count)) [
          | inl e ↦ meet_newer e
          | inr e ↦ (h, meet_nothing e)
        ]
