-- ===== src/Cron.antt =====
-- `local_ip_refresh` of CronJob/node_cron_job.c.
use vpnp2p.Prelude.{
  ℕ, zero, suc, ◌+◌, ◌<◌, ◌≡◌, refl, ap, ◌∙◌, true, not, Option, none, some, List, [], ◌∷◌, pos,
  arith, ◌==◌, if◌then◌else◌, length,
}
use vpnp2p.CString.Equal.{str_eq_refl}
use vpnp2p.CString.{Bytes, codes}
use vpnp2p.NodeInfo.Access.{load_node-ok}
use vpnp2p.NodeInfo.Chain.{HoldsNode_eq, NodeChain, NodeChain-cons}
use vpnp2p.NodeInfo.Compare.Computes.{ip_list_identical-computes}
use vpnp2p.NodeInfo.Compare.{ip_list_identical, contain_ip}
use vpnp2p.NodeInfo.Generate.{generate_local_node, local_node_of, local_ip, generate_local_node-one}
use vpnp2p.NodeInfo.Heap.{
  Ptr, null, NodeCell, Cmd, Heap, ok, pure, fail, ◌>>=◌, ◌>>◌, out_of_fuel, load_ip, load_node,
}
use vpnp2p.NodeInfo.Parse.Writes.{with_node, set_ip_list-ok}
use vpnp2p.NodeInfo.Parse.{set_ip_list, set_type, set_validity}

-- The loop over the new list.
unfoldable pub mark_ips : ℕ → ℕ → Ptr → Ptr → Cmd (Unit {0})
mark_ips inner zero ptr before = fail out_of_fuel
mark_ips inner (suc fuel) ptr before = if ptr == null then pure tt else do
  c ← load_ip ptr
  found ← contain_ip inner before c.ip
  if found
      then set_validity ptr (pos 0)
      else (do set_type ptr (codes "unknownIP"); set_validity ptr (pos 1))
  c' ← load_ip ptr
  mark_ips inner fuel c'.next_ip before

-- The new `local_node`, which `generate_local_node` has set when the list before is read from it.
unfoldable pub local_ip_refresh : ℕ → ℕ → List (Option Bytes) → Cmd Ptr
unfolding mark_ips
local_ip_refresh fuel r slots = do
  local_node ← generate_local_node r slots
  current ← load_node local_node
  before ← load_node local_node
  identical ← ip_list_identical fuel current.ip_list before.ip_list
  if not identical then mark_ips fuel fuel current.ip_list before.ip_list else pure tt
  set_ip_list local_node current.ip_list
  pure local_node

refresh_same :
    (fuel r : ℕ) (slots : List (Option Bytes)) (p : Ptr) (h h₁ : Heap)
    → generate_local_node r slots h ≡ ok p h₁
    → 0 < p
    → p < h₁.brk
    → ip_list_identical fuel (h₁.nodes p).ip_list (h₁.nodes p).ip_list h₁ ≡ ok true h₁
    → local_ip_refresh fuel r slots h
      ≡ ok p (with_node h₁ p (record (h₁.nodes p) { ip_list = (h₁.nodes p).ip_list }))
unfolding local_ip_refresh
refresh_same fuel r slots p h h₁ run positive low same =
    rw (run, load_node-ok p h₁ positive low)
      (rw (load_node-ok p h₁ positive low)
        (rw same (rw (set_ip_list-ok p h₁ positive low (h₁.nodes p).ip_list) refl)))

-- On a machine with one address of at most 19 bytes, and if fresh memory ends both lists,
-- `local_ip_refresh` marks nothing and leaves the list of the new node alone, whatever the list of
-- nodes was.
pub local_ip_refresh-one :
    (fuel r : ℕ) (s : Bytes) (slots : List (Option Bytes)) (h : Heap)
    → 1 < fuel
    → 0 < h.brk
    → length s < 20
    → (h.nodes h.brk).next_node ≡ null
    → (h.ips (h.brk + 1)).next_ip ≡ null
    → (h' : Heap) × (local_ip_refresh fuel r (some s ∷ none ∷ slots) h ≡ ok h.brk h')
      × NodeChain h' h'.brk h.brk h'.brk h.brk (local_node_of r s ∷ [])
local_ip_refresh-one fuel r s slots h room positive short node_end ip_end =
    let (h₁, run, chain) = generate_local_node-one r s slots h positive short node_end ip_end in
    let (low₁, above, low, v, end) = chain in
    let p = h.brk in
    let xs = local_ip s ∷ [] in
    let c = h₁.nodes p in
    let h₂ = with_node h₁ p (record c { ip_list = c.ip_list }) in
    let same : h₂.nodes p ≡ c = ground arith in
    (
      h₂,
      refresh_same fuel r (some s ∷ none ∷ slots) p h h₁ run positive low (
          ip_list_identical-computes fuel c.ip_list c.ip_list xs xs h₁ room room v.ip_list v.ip_list
          ∙ ap (λ b. ok b h₁) (rw (str_eq_refl s) refl)),
      NodeChain-cons h₂ h₂.brk p h₂.brk p null (local_node_of r s) [] positive (omega arith) low
          (HoldsNode_eq h₁.ips h₂.ips h₁.brk c (h₂.nodes p) (local_node_of r s) refl same v)
          (ap (λ (x : NodeCell). x.next_node) same ∙ end) refl,
    )
