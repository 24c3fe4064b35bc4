-- ===== src/NodeInfo/IpMerge/Meets.antt =====
-- The inner loop of `ip_list_merge`: every address of a list meets one address.
use vpnp2p.Prelude.{
  ℕ, zero, suc, ◌<◌, ◌≡◌, refl, ap, ◌∙◌, Bool, not, ◌&&◌, ◌||◌, Option, none, some, List, [], ◌∷◌,
  arith, length, Option-cases, inl, inr,
}
use vpnp2p.CString.{str_eq}
use vpnp2p.NodeInfo.Access.{not_null, load_ip-ok}
use vpnp2p.NodeInfo.Compare.Values.{has_ip}
use vpnp2p.NodeInfo.Heap.{Ptr, null, IpCell, Heap, ok}
use vpnp2p.NodeInfo.IpMerge.Defs.{meet_ips}
use vpnp2p.NodeInfo.IpMerge.MeetsOne.{MeetsOne, some_injective, meet_ip-MeetsOne}
use vpnp2p.NodeInfo.IpMerge.Spec.{◌>>=◌, meet, meet_all}
use vpnp2p.NodeInfo.IpMerge.Walk.{
  AllEnd, Walk-bound, Walk, Walk-links, infos, infos-Outside, Outside, Distinct,
}
use vpnp2p.NodeInfo.Values.{Ip}

-- What the loop returns: `flag` is cleared if the address is known.
abbrev pub met_all : Option (List Ip) → Bool → Bool → Option Bool
met_all none flag known = none
met_all (some xs) flag known = some (flag && not known)

-- Each of the cells has met the one at `b`.
pub record MeetsAll (cells : List Ptr) (b : Ptr) (h h' : Heap) : Type 0 where
  pub values :
      (xs : List Ip)
      → meet_all (infos h.ips cells) (h.ips b).info ≡ some xs
      → infos h'.ips cells ≡ xs
  pub links : (c : Ptr) → (h'.ips c).next_ip ≡ (h.ips c).next_ip
  pub outside : (c : Ptr) → Outside c cells → h'.ips c ≡ h.ips c
  pub itself : (h'.ips b).info ≡ (h.ips b).info
  pub ends : AllEnd h'
  pub nodes : h'.nodes ≡ h.nodes
  pub brk : h'.brk ≡ h.brk

pub MeetsAll-Walk :
    (met_cells : List Ptr) (b : Ptr) (h h₁ : Heap)
    → MeetsAll met_cells b h h₁
    → (p : Ptr) (cells : List Ptr) → Walk h.ips h.brk p cells null
    → Walk h₁.ips h₁.brk p cells null
MeetsAll-Walk met_cells b h h₁ m p cells w =
    let size = m.brk in
    Walk-links h.ips h₁.ips h₁.brk p cells null m.links
      (Walk-bound h.ips h.brk h₁.brk p cells null (omega arith) w)

module _ (fuel p a b : ℕ) (flag : Bool) (h h₁ : Heap) (e : MeetsOne a b h h₁) (at : p ≡ a)
    (a_pos : 0 < a) (a_low : a < h.brk) where
  meet_ips_conflict :
      meet (h.ips a).info (h.ips b).info ≡ none → meet_ips (suc fuel) p b flag h ≡ ok none h₁
  unfolding meet_ips
  meet_ips_conflict q = rw (at, not_null a a_pos) (rw (e.run, q) refl)

  meet_ips_step :
      (x : Ip)
      → meet (h.ips a).info (h.ips b).info ≡ some x
      → meet_ips (suc fuel) p b flag h
        ≡ meet_ips fuel (h.ips a).next_ip b (flag && not (str_eq (h.ips a).ip (h.ips b).ip)) h₁
  unfolding meet_ips
  meet_ips_step x q =
      let size = e.brk in
      rw (at, not_null a a_pos)
        (rw (e.run, q) (rw (at, load_ip-ok a h₁ a_pos (omega arith), e.links a) refl))

met_all-cons :
    (o : Option (List Ip)) (x : Ip) (flag s k : Bool)
    → met_all o (flag && not s) k ≡ met_all (o >>= λ xs. some (x ∷ xs)) flag (s || k)
met_all-cons none x flag s k = refl
met_all-cons (some xs) x flag s k = ground arith

bind_some :
    (o : Option Ip) (tail : Option (List Ip)) (xs : List Ip)
    → (o >>= λ x. tail >>= λ r. some (x ∷ r)) ≡ some xs
    → (x : Ip) × (r : List Ip) × (o ≡ some x) × (tail ≡ some r) × (x ∷ r ≡ xs)
bind_some none tail xs e = cc
bind_some (some x) none xs e = cc
bind_some (some x) (some r) xs e = (x, r, refl, refl, some_injective e)

module _ (a b : Ptr) (cells : List Ptr) (h h₁ : Heap) (e : MeetsOne a b h h₁) where
  MeetsAll-conflict : meet (h.ips a).info (h.ips b).info ≡ none → MeetsAll (a ∷ cells) b h h₁
  unfolding meet_all
  MeetsAll-conflict q = record {
    values = λ xs r.
        let (x, tail, taken, rest_taken, eq) =
          bind_some (meet (h.ips a).info (h.ips b).info)
            (meet_all (infos h.ips cells) (h.ips b).info) xs r in
        cc;
    links = e.links;
    outside = λ c o. e.same c o.0;
    itself = e.itself;
    ends = e.ends;
    nodes = e.nodes;
    brk = e.brk;
  }

  module _ (out : Outside a cells) where
    kept : infos h₁.ips cells ≡ infos h.ips cells
    kept = infos-Outside h.ips h₁.ips a cells e.same out

    meet_all_kept :
        meet_all (infos h₁.ips cells) (h₁.ips b).info ≡ meet_all (infos h.ips cells) (h.ips b).info
    meet_all_kept =
        ap (λ l. meet_all l (h₁.ips b).info) kept
        ∙ ap (λ z. meet_all (infos h.ips cells) z) e.itself

    has_ip_kept :
        has_ip (h₁.ips b).ip (infos h₁.ips cells) ≡ has_ip (h.ips b).ip (infos h.ips cells)
    has_ip_kept =
        ap (λ l. has_ip (h₁.ips b).ip l) kept
        ∙ ap (λ (z : Ip). has_ip z.ip (infos h.ips cells)) e.itself

    met_all_kept :
        (onward : Bool)
        → met_all
            (meet_all (infos h₁.ips cells) (h₁.ips b).info)
            onward
            (has_ip (h₁.ips b).ip (infos h₁.ips cells))
          ≡ met_all
              (meet_all (infos h.ips cells) (h.ips b).info)
              onward
              (has_ip (h.ips b).ip (infos h.ips cells))
    met_all_kept onward = rw (meet_all_kept, has_ip_kept) refl

    MeetsAll-cons : (h₂ : Heap) → MeetsAll cells b h₁ h₂ → MeetsAll (a ∷ cells) b h h₂
    unfolding meet_all
    MeetsAll-cons h₂ f = record {
      values = λ xs r.
          let (x, tail, taken, rest_taken, eq) =
            bind_some (meet (h.ips a).info (h.ips b).info)
              (meet_all (infos h.ips cells) (h.ips b).info) xs r in
          let first : (h₂.ips a).info ≡ x =
            ap (λ (c : IpCell). c.info) (f.outside a out) ∙ e.value x taken in
          let others : infos h₂.ips cells ≡ tail = f.values tail (meet_all_kept ∙ rest_taken) in
          rw (first, others) eq;
      links = λ c. f.links c ∙ e.links c;
      outside = λ c o. f.outside c o.1 ∙ e.same c o.0;
      itself = f.itself ∙ e.itself;
      ends = f.ends;
      nodes = f.nodes ∙ e.nodes;
      brk = f.brk ∙ e.brk;
    }

pub meet_ips-MeetsAll :
    (fuel : ℕ) (p b : Ptr) (cells : List Ptr) (flag : Bool) (h : Heap)
    → length cells < fuel
    → Walk h.ips h.brk p cells null
    → Distinct cells
    → 0 < b
    → b < h.brk
    → AllEnd h
    → (h' : Heap) × (meet_ips fuel p b flag h
        ≡ ok
            (met_all
              (meet_all (infos h.ips cells) (h.ips b).info)
              flag
              (has_ip (h.ips b).ip (infos h.ips cells)))
            h')
      × MeetsAll cells b h h'
unfolding meet_ips meet_all
meet_ips-MeetsAll zero p b cells flag h room w d b_pos b_low ends = elim room [ ]
meet_ips-MeetsAll (suc fuel) p b [] flag h room w d b_pos b_low ends = (
  h,
  rw w (ground arith),
  record {
    values = λ xs e. some_injective e;
    links = λ c. refl;
    outside = λ c out. refl;
    itself = refl;
    ends = ends;
    nodes = refl;
    brk = refl;
  },
)
meet_ips-MeetsAll (suc fuel) p b (a ∷ cells) flag h room (at, a_pos, a_low, rest) (out, d) b_pos
      b_low ends =
    let (h₁, e) = meet_ip-MeetsOne a b h a_pos a_low b_pos b_low ends in
    let y = (h.ips b).info in
    elim (Option-cases (meet (h.ips a).info y)) [
      | inl q ↦ (
        h₁,
        meet_ips_conflict fuel p a b flag h h₁ e at a_pos a_low q ∙ rw q refl,
        MeetsAll-conflict a b cells h h₁ e q,
      )
      | inr (x, q) ↦
          let size = e.brk in
          let onward = flag && not (str_eq (h.ips a).ip y.ip) in
          let w : Walk h.ips h₁.brk (h.ips a).next_ip cells null = rw size rest in
          let (h₂, run, f) =
            meet_ips-MeetsAll fuel (h.ips a).next_ip b cells onward h₁ (omega arith)
              (Walk-links h.ips h₁.ips h₁.brk (h.ips a).next_ip cells null e.links w) d b_pos
              (omega arith) e.ends in
          (
            h₂,
            meet_ips_step fuel p a b flag h h₁ e at a_pos a_low x q
                ∙ run
                ∙ ap (λ o. ok o h₂)
                    (met_all_kept a b cells h h₁ e out onward
                      ∙ met_all-cons (meet_all (infos h.ips cells) y) x flag
                          (str_eq (h.ips a).ip y.ip) (has_ip y.ip (infos h.ips cells)))
                ∙ rw q refl,
            MeetsAll-cons a b cells h h₁ e out h₂ f,
          )
    ]
