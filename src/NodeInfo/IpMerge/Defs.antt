-- ===== src/NodeInfo/IpMerge/Defs.antt =====
-- `ip_list_merge` of NodeInfo/node_info.c on the heap. Its loops along the lists take fuel.
use vpnp2p.Prelude.{
  ℕ, zero, suc, Bool, true, false, not, ◌&&◌, ◌||◌, Option, none, some, ℤ, pos, negsuc, eq_ℤ, ltb_ℤ,
  ◌==◌, if◌then◌else◌,
}
use vpnp2p.CString.{str_eq}
use vpnp2p.NodeInfo.Heap.{Ptr, null, Cmd, pure, fail, ◌>>=◌, ◌>>◌, out_of_fuel, load_ip}
use vpnp2p.NodeInfo.Parse.{set_ip, set_type, set_s_count, set_next_ip}

-- The walk to the last cell of the first list.
unfoldable pub find_ip_tail : ℕ → Ptr → Cmd Ptr
find_ip_tail zero ip_list_tail = fail out_of_fuel
find_ip_tail (suc fuel) ip_list_tail = do
  c ← load_ip ip_list_tail
  if c.next_ip == null then pure ip_list_tail else find_ip_tail fuel c.next_ip

-- The body of the inner loop: whether the two addresses are equal, which clears `flag`, or `none` if
-- the function returns -1.
unfoldable pub meet_ip : Ptr → Ptr → Cmd (Option Bool)
meet_ip ip_tmp ip_ptr = do
  c ← load_ip ip_tmp
  d ← load_ip ip_ptr
  let conflict = not (str_eq d.ip c.ip) || not (str_eq d.type c.type)
  if not (str_eq c.ip d.ip)
      then pure (some false)
      else if ltb_ℤ c.s_count d.s_count
      then (do
        set_ip ip_tmp d.ip
        set_type ip_tmp d.type
        set_s_count ip_tmp d.s_count
        pure (some true))
      else if eq_ℤ d.s_count c.s_count && conflict
      then pure none
      else pure (some true)

-- The inner loop, from `ip_tmp` on: `flag` at its end, or `none` if the function returns -1.
unfoldable pub meet_ips : ℕ → Ptr → Ptr → Bool → Cmd (Option Bool)
meet_ips zero ip_tmp ip_ptr flag = fail out_of_fuel
meet_ips (suc fuel) ip_tmp ip_ptr flag = if ip_tmp == null then pure (some flag) else do
  met ← meet_ip ip_tmp ip_ptr
  elim met [
    | none ↦ pure none
    | some same ↦ do c ← load_ip ip_tmp; meet_ips fuel c.next_ip ip_ptr (flag && not same)
  ]

-- `if (flag) …`: the new `ip_list_tail`.
unfoldable pub append_ip : Ptr → Ptr → Bool → Cmd Ptr
append_ip ip_list_tail ip_ptr flag =
    if flag
    then (do set_next_ip ip_list_tail ip_ptr; c ← load_ip ip_list_tail; pure c.next_ip)
    else pure ip_list_tail

-- The outer loop, from `ip_ptr` on, with the value that is returned.
unfoldable pub merge_ips : ℕ → ℕ → Ptr → Ptr → Ptr → Cmd ℤ
unfolding meet_ips append_ip
merge_ips inner zero ip1 ip_list_tail ip_ptr = fail out_of_fuel
merge_ips inner (suc fuel) ip1 ip_list_tail ip_ptr = if ip_ptr == null then pure (pos 1) else do
  met ← meet_ips inner ip1 ip_ptr true
  elim met [
    | none ↦ pure (negsuc 0)
    | some flag ↦ do
      tail ← append_ip ip_list_tail ip_ptr flag
      c ← load_ip ip_ptr
      merge_ips inner fuel ip1 tail c.next_ip
  ]

unfoldable pub ip_list_merge : ℕ → Ptr → Ptr → Cmd ℤ
unfolding find_ip_tail merge_ips
ip_list_merge fuel ip1 ip2 = do
  ip_list_tail ← find_ip_tail fuel ip1
  merge_ips fuel fuel ip1 ip_list_tail ip2
