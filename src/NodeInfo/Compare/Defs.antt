-- ===== src/NodeInfo/Compare/Defs.antt =====
-- `node_is_identical`, `contain_node`, `ip_list_length`, `contain_ip` and `ip_list_identical` of
-- NodeInfo/node_info.c, on the heap. Their loops along the lists take fuel.
use vpnp2p.Prelude.{
  ℕ, zero, suc, ◌+◌, Bool, true, false, not, ◌&&◌, ◌||◌, eq_ℤ, ◌==◌, if◌then◌else◌,
}
use vpnp2p.CString.{Bytes, str_eq}
use vpnp2p.NodeInfo.Heap.{Ptr, null, Cmd, pure, fail, ◌>>=◌, out_of_fuel, load_ip, load_node}

-- The loop of `node_is_identical`; `!strcmp(a, b)` holds of equal strings.
unfoldable pub same_ips : ℕ → Ptr → Ptr → Cmd Bool
same_ips zero ip₁ ip₂ = fail out_of_fuel
same_ips (suc fuel) ip₁ ip₂ =
    if ip₁ == null && ip₂ == null
    then pure true
    else if (ip₁ == null && not (ip₂ == null)) || (not (ip₁ == null) && ip₂ == null)
    then pure false
    else do
      c₁ ← load_ip ip₁
      c₂ ← load_ip ip₂
      if str_eq c₁.ip c₂.ip || str_eq c₁.type c₂.type || not (eq_ℤ c₁.s_count c₂.s_count)
          then pure false
          else same_ips fuel c₁.next_ip c₂.next_ip

unfoldable pub node_is_identical : ℕ → Ptr → Ptr → Cmd Bool
unfolding same_ips
node_is_identical fuel node₁ node₂ = do
  c₁ ← load_node node₁
  c₂ ← load_node node₂
  if not (eq_ℤ c₁.id c₂.id)
      then pure false
      else if not (eq_ℤ c₁.node_count c₂.node_count)
      then pure false
      else same_ips fuel c₁.ip_list c₂.ip_list

unfoldable pub contain_node : ℕ → Ptr → Ptr → Cmd Bool
contain_node zero list node = fail out_of_fuel
contain_node (suc fuel) list node = if list == null then pure false else do
  tmp ← load_node list
  c ← load_node node
  if eq_ℤ tmp.id c.id then pure true else contain_node fuel tmp.next_node node

-- The loop of `ip_list_length`, from the length so far.
unfoldable pub count_ips : ℕ → ℕ → Ptr → Cmd ℕ
count_ips zero n ptr = fail out_of_fuel
count_ips (suc fuel) n ptr =
    if ptr == null then pure n else do c ← load_ip ptr; count_ips fuel (n + 1) c.next_ip

unfoldable pub ip_list_length : ℕ → Ptr → Cmd ℕ
unfolding count_ips
ip_list_length fuel ip_list = count_ips fuel 0 ip_list

unfoldable pub contain_ip : ℕ → Ptr → Bytes → Cmd Bool
contain_ip zero ip_list ip = fail out_of_fuel
contain_ip (suc fuel) ip_list ip =
    if ip_list == null
    then pure false
    else do c ← load_ip ip_list; if str_eq c.ip ip then pure true else contain_ip fuel c.next_ip ip

-- The loop of `ip_list_identical`.
unfoldable pub all_contained : ℕ → ℕ → Ptr → Ptr → Cmd Bool
unfolding contain_ip
all_contained inner zero ptr ip_list₂ = fail out_of_fuel
all_contained inner (suc fuel) ptr ip_list₂ = if ptr == null then pure true else do
  c ← load_ip ptr
  found ← contain_ip inner ip_list₂ c.ip
  if not found then pure false else all_contained inner fuel c.next_ip ip_list₂

unfoldable pub ip_list_identical : ℕ → Ptr → Ptr → Cmd Bool
unfolding ip_list_length all_contained
ip_list_identical fuel ip_list₁ ip_list₂ = do
  n₁ ← ip_list_length fuel ip_list₁
  n₂ ← ip_list_length fuel ip_list₂
  if not (n₁ == n₂) then pure false else all_contained fuel fuel ip_list₁ ip_list₂
