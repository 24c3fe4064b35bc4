-- ===== src/Start/Defs.antt =====
-- `generate_node_info` and `start` of InitTest/node_start.c. The addresses of the machine are those in
-- the ten slots of the array that `get_local_ip` returns, up to one that is `NULL`.
use vpnp2p.Prelude.{ℕ, zero, suc, Bool, Option, none, some, List, [], ◌∷◌, pos, if◌then◌else◌}
use vpnp2p.CString.{Bytes, codes}
use vpnp2p.NodeInfo.Generate.{is_intranet, generate_id, link_new}
use vpnp2p.NodeInfo.Heap.{
  Ptr, null, NodeCell, Cmd, pure, fail, ◌>>=◌, ◌>>◌, bad_pointer, out_of_bounds, malloc, store_node,
}
use vpnp2p.NodeInfo.Parse.{
  set_id, set_node_count, set_reliable, set_ip_list, set_ip, set_type, set_s_count, set_next_ip,
}
use vpnp2p.NodeInfo.Print.{struct2file}

-- The fields that the loop fills for the address `s`.
unfoldable pub fill_local_ip : Ptr → Bytes → Cmd (Unit {0})
fill_local_ip ip s = do
  set_ip ip s
  set_type ip (if is_intranet s then codes "clientIP" else codes "unknownIP")
  set_s_count ip (pos 0)

-- The loop; the last `ip`. Its body ends as that of `generate_local_node` does.
unfoldable pub fill_local_ips : ℕ → List (Option Bytes) → Ptr → Cmd Ptr
unfolding fill_local_ip link_new
fill_local_ips zero slots ip = pure ip
fill_local_ips (suc left) [] ip = fail out_of_bounds
fill_local_ips (suc left) (none ∷ slots) ip = pure ip
fill_local_ips (suc left) (some s ∷ slots) ip = do
  fill_local_ip ip s
  ip_next ← link_new slots ip
  fill_local_ips left slots ip_next

-- The server's own address; without the argument `strcpy` reads from `NULL`.
unfoldable pub server_ip_cell : Option Bytes → Cmd Ptr
server_ip_cell server_ip = do
  ip_server ← malloc
  set_type ip_server (codes "serverIP")
  elim server_ip [ none ↦ fail bad_pointer | some s ↦ set_ip ip_server s ]
  set_s_count ip_server (pos 0)
  pure ip_server

abbrev pub cleared : NodeCell
cleared = record {
  id = pos 0;
  node_count = pos 0;
  reliable = pos 0;
  ip_list = null;
  next_node = null;
}

-- The contents of the file afterwards. `tmp_node` is a variable of the function, which `bzero` clears.
unfoldable pub generate_node_info :
    ℕ → Bool → ℕ → List (Option Bytes) → Option Bytes → Option Bytes → Cmd (Option Bytes)
unfolding fill_local_ips server_ip_cell
generate_node_info fuel opens r slots server_ip file = do
  tmp_node ← malloc
  store_node tmp_node cleared
  set_id tmp_node (generate_id r)
  set_node_count tmp_node (pos 1)
  set_reliable tmp_node (pos 1)
  ip ← malloc
  set_ip_list tmp_node ip
  last ← fill_local_ips 10 slots ip
  ip_server ← server_ip_cell server_ip
  set_next_ip last ip_server
  (text, code) ← struct2file fuel opens [] tmp_node
  pure (if opens then some text else file)

-- `use_cache` is not read.
unfoldable pub start :
    ℕ → Bool → ℕ → List (Option Bytes) → Option Bytes → Bool → Option Bytes → Cmd (Option Bytes)
unfolding generate_node_info
start fuel opens r slots server_ip use_cache none =
    generate_node_info fuel opens r slots server_ip none
start fuel opens r slots server_ip use_cache (some text) = pure (some text)
