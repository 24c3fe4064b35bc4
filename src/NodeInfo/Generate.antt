-- ===== src/NodeInfo/Generate.antt =====
-- `generate_local_node` of NodeInfo/node_info.c with `is_intranet` and `generate_id` of Util/util.c.
use vpnp2p.Prelude.{
  ℕ, zero, suc, ◌+◌, ◌%◌, ◌<◌, ◌≤◌, ◌≡◌, refl, ap, ◌∙◌, Bool, true, Option, none, some, List, [],
  ◌∷◌, ℤ, pos, arith, if◌then◌else◌, length,
}
use vpnp2p.CString.{Bytes, codes}
use vpnp2p.NodeInfo.Access.{store_ip-ok}
use vpnp2p.NodeInfo.Chain.{IpChain, IpChain-cons, HoldsNode, NodeChain, NodeChain-cons}
use vpnp2p.NodeInfo.Heap.{
  Ptr, null, IpCell, NodeCell, Cmd, Heap, pure, fail, fault, ok, ◌>>=◌, ◌>>◌, bad_pointer,
  out_of_bounds, malloc, in_block, store_ip, load_ip, is_valid,
}
use vpnp2p.NodeInfo.Parse.Writes.{
  with_ip, with_node, set_next_ip-ok, set_id-ok, set_node_count-ok, set_reliable-ok, set_ip_list-ok,
  set_ip-ok, set_type-ok, set_s_count-ok, set_validity-ok,
}
use vpnp2p.NodeInfo.Parse.{
  set_next_ip, set_id, set_node_count, set_reliable, set_ip_list, set_ip, set_type, set_s_count,
  set_validity,
}
use vpnp2p.NodeInfo.Values.{Ip, Node}

abbrev pub is_intranet : Bytes → Bool
is_intranet ip = true

-- `generate_id`, from the value of `rand()`.
abbrev pub generate_id : ℕ → ℤ
generate_id r = pos (r % 10000 + 1)

-- The fields that the loop fills for the address `s`.
unfoldable pub fill_ip : Ptr → Bytes → Cmd (Unit {0})
fill_ip ip s = do
  set_ip ip s
  set_type ip (if is_intranet s then codes "clientIP" else codes "unknownIP")
  set_s_count ip (pos 0)
  set_validity ip (pos 1)

-- `bzero` of a `struct IP`
abbrev pub cleared_ip : IpCell
cleared_ip = record {
  info = record { ip = []; type = []; s_count = pos 0; validity = pos 0 };
  next_ip = null;
}

-- The end of the loop's body, on the slots behind that of `ip`: if another address follows, a struct is
-- declared and linked; the next `ip`. Behind the tenth slot the test reads past the array.
unfoldable pub link_new : List (Option Bytes) → Ptr → Cmd Ptr
link_new [] ip = fail out_of_bounds
link_new (none ∷ slots) ip = pure ip
link_new (some t ∷ slots) ip =
    in_block (λ ip_new. do store_ip ip_new cleared_ip; set_next_ip ip ip_new; pure ip_new)

-- The loop over the ten slots of `get_local_ip`.
unfoldable pub fill_ips : ℕ → List (Option Bytes) → Ptr → Cmd (Unit {0})
unfolding fill_ip link_new
fill_ips zero slots ip = pure tt
fill_ips (suc left) [] ip = fail out_of_bounds
fill_ips (suc left) (none ∷ slots) ip = pure tt
fill_ips (suc left) (some s ∷ slots) ip = do
  fill_ip ip s
  ip_next ← link_new slots ip
  fill_ips left slots ip_next

-- The new `local_node`, from the value of `rand()` and the slots of `get_local_ip`.
unfoldable pub generate_local_node : ℕ → List (Option Bytes) → Cmd Ptr
unfolding fill_ips
generate_local_node r slots = do
  node ← malloc
  set_id node (generate_id r)
  set_node_count node (pos 1)
  set_reliable node (pos 1)
  ip ← malloc
  set_ip_list node ip
  fill_ips 10 slots ip
  pure node

abbrev pub local_ip : Bytes → Ip
local_ip s = record { ip = s; type = codes "clientIP"; s_count = pos 0; validity = pos 1 }

abbrev pub local_node_of : ℕ → Bytes → Node
local_node_of r s = record {
  id = generate_id r;
  node_count = pos 1;
  reliable = pos 1;
  ip_list = local_ip s ∷ [];
}

record FillsIp (ip : Ptr) (s : Bytes) (h h' : Heap) : Type 0 where
  run : fill_ip ip s h ≡ ok tt h'
  cell : h'.ips ip ≡ record (h.ips ip) { info = local_ip s }
  nodes : h'.nodes ≡ h.nodes
  brk : h'.brk ≡ h.brk

fill_ip-FillsIp :
    (ip : Ptr) (s : Bytes) (h : Heap)
    → 0 < ip
    → ip < h.brk
    → length s < 20
    → (h' : Heap) × FillsIp ip s h h'
unfolding fill_ip
fill_ip-FillsIp ip s h positive low short =
    let h₁ = with_ip h ip (record (h.ips ip) { info = record (h.ips ip).info { ip = s } }) in
    let h₂ =
      with_ip h₁ ip
        (record (h₁.ips ip) { info = record (h₁.ips ip).info { type = codes "clientIP" } }) in
    let h₃ =
      with_ip h₂ ip (record (h₂.ips ip) { info = record (h₂.ips ip).info { s_count = pos 0 } }) in
    let h₄ =
      with_ip h₃ ip (record (h₃.ips ip) { info = record (h₃.ips ip).info { validity = pos 1 } }) in
    (
      h₄,
      record {
        run =
            rw
              (
                set_ip-ok ip h positive low s short,
                set_type-ok ip h₁ positive low (codes "clientIP") (omega arith),
                set_s_count-ok ip h₂ positive low (pos 0),
                set_validity-ok ip h₃ positive low (pos 1),
              )
              refl;
        cell = ground arith;
        nodes = refl;
        brk = refl;
      },
    )

-- The heap in front of the loop.
record Prepared (r : ℕ) (slots : List (Option Bytes)) (h h' : Heap) : Type 0 where
  run : generate_local_node r slots h ≡ (fill_ips 10 slots (h.brk + 1) >> pure h.brk) h'
  cell : h'.nodes h.brk ≡ record (h.nodes h.brk) {
    id = generate_id r;
    node_count = pos 1;
    reliable = pos 1;
    ip_list = h.brk + 1;
  }
  ips : h'.ips ≡ h.ips
  brk : h'.brk ≡ h.brk + 2

generate-Prepared :
    (r : ℕ) (slots : List (Option Bytes)) (h : Heap)
    → 0 < h.brk
    → (h' : Heap) × Prepared r slots h h'
unfolding generate_local_node malloc
generate-Prepared r slots h positive =
    let p = h.brk in
    let h₀ = record h { brk = h.brk + 1 } in
    let h₁ = with_node h₀ p (record (h₀.nodes p) { id = generate_id r }) in
    let h₂ = with_node h₁ p (record (h₁.nodes p) { node_count = pos 1 }) in
    let h₃ = with_node h₂ p (record (h₂.nodes p) { reliable = pos 1 }) in
    let h₄ = record h₃ { brk = h.brk + 1 + 1 } in
    let h₅ = with_node h₄ p (record (h₄.nodes p) { ip_list = h.brk + 1 }) in
    (
      h₅,
      record {
        run =
            rw
              (
                set_id-ok p h₀ positive (omega arith) (generate_id r),
                set_node_count-ok p h₁ positive (omega arith) (pos 1),
                set_reliable-ok p h₂ positive (omega arith) (pos 1),
                set_ip_list-ok p h₄ positive (omega arith) (h.brk + 1),
              )
              refl;
        cell = ground arith;
        ips = refl;
        brk = omega arith;
      },
    )

-- On a machine with one address of at most 19 bytes `generate_local_node` builds the list of one
-- node with that address. It sets neither link at the end: both have to be `NULL` in the memory
-- that `malloc` returns.
pub generate_local_node-one :
    (r : ℕ) (s : Bytes) (slots : List (Option Bytes)) (h : Heap)
    → 0 < h.brk
    → length s < 20
    → (h.nodes h.brk).next_node ≡ null
    → (h.ips (h.brk + 1)).next_ip ≡ null
    → (h' : Heap) × (generate_local_node r (some s ∷ none ∷ slots) h ≡ ok h.brk h')
      × NodeChain h' h'.brk h.brk h'.brk h.brk (local_node_of r s ∷ [])
unfolding fill_ips link_new
generate_local_node-one r s slots h positive short node_end ip_end =
    let (h₁, e) = generate-Prepared r (some s ∷ none ∷ slots) h positive in
    let (h₂, f) = fill_ip-FillsIp (h.brk + 1) s h₁ (omega arith) (omega (arith, e.brk)) short in
    let q = h.brk + 1 in
    let node = ap (λ (g : Ptr → NodeCell). g h.brk) f.nodes ∙ e.cell in
    let ip = f.cell ∙ ap (λ (g : Ptr → IpCell). record (g q) { info = local_ip s }) e.ips in
    let size = e.brk in
    let room = f.brk in
    let ips : IpChain h₂.ips h₂.brk q (local_ip s ∷ []) =
      IpChain-cons h₂.ips h₂.brk q null (local_ip s) [] (omega arith) (omega arith)
        (ap (λ (c : IpCell). c.info) ip) (ap (λ (c : IpCell). c.next_ip) ip ∙ ip_end) refl in
    let holds : HoldsNode h₂.ips h₂.brk (h₂.nodes h.brk) (local_node_of r s) = record {
      id = ap (λ (c : NodeCell). c.id) node;
      node_count = ap (λ (c : NodeCell). c.node_count) node;
      reliable = ap (λ (c : NodeCell). c.reliable) node;
      ip_list = rw (ap (λ (c : NodeCell). c.ip_list) node) ips;
    } in
    (
      h₂,
      e.run ∙ rw f.run refl,
      NodeChain-cons h₂ h₂.brk h.brk h₂.brk h.brk null (local_node_of r s) [] positive (omega arith)
          (omega arith) holds (ap (λ (c : NodeCell). c.next_node) node ∙ node_end) refl,
    )

-- The struct of the block is linked, but does not exist behind it.
link_new-Dead :
    (t : Bytes) (slots : List (Option Bytes)) (ip : Ptr) (h : Heap)
    → 0 < ip
    → ip < h.brk
    → (h' : Heap) × (link_new (some t ∷ slots) ip h ≡ ok h.brk h')
      × (h'.brk ≡ h.brk)
      × ((h'.ips ip).next_ip ≡ h.brk)
unfolding link_new in_block
link_new-Dead t slots ip h positive low =
    let p = h.brk in
    let h₀ = record h { brk = h.brk + 1 } in
    let h₁ = with_ip h₀ p cleared_ip in
    let h₂ = with_ip h₁ ip (record (h₁.ips ip) { next_ip = p }) in
    (
      record h₂ { brk = h.brk },
      rw
          (
            store_ip-ok p h₀ (omega arith) (omega arith) cleared_ip,
            set_next_ip-ok ip h₁ positive (omega arith) p,
          )
          refl,
      refl,
      ground arith,
    )

fill_ip-Dead : (ip : Ptr) (s : Bytes) (h : Heap) → h.brk ≤ ip → fill_ip ip s h ≡ fault bad_pointer
unfolding fill_ip set_ip load_ip is_valid
fill_ip-Dead ip s h above = ground arith

-- On a machine with two or more addresses, the first of at most 19 bytes, `generate_local_node`
-- links the struct of its inner block, goes on in it behind the block, and faults there: the struct
-- has ceased to exist.
pub generate_local_node_dangles :
    (r : ℕ) (s t : Bytes) (slots : List (Option Bytes)) (h : Heap)
    → 0 < h.brk
    → length s < 20
    → generate_local_node r (some s ∷ some t ∷ slots) h ≡ fault bad_pointer
unfolding fill_ips
generate_local_node_dangles r s t slots h positive short =
    let (h₁, e) = generate-Prepared r (some s ∷ some t ∷ slots) h positive in
    let (h₂, f) = fill_ip-FillsIp (h.brk + 1) s h₁ (omega arith) (omega (arith, e.brk)) short in
    let (h₃, linked, gone, at) =
      link_new-Dead t slots (h.brk + 1) h₂ (omega arith) (omega (arith, e.brk, f.brk)) in
    e.run ∙ rw (f.run, linked, fill_ip-Dead h₂.brk t h₃ (omega arith)) refl
