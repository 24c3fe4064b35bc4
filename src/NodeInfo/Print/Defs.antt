-- ===== src/NodeInfo/Print/Defs.antt =====
-- `struct2file` and `convert_node_to_buf` of NodeInfo/node_info.c, on the heap. Their loops along
-- the lists take fuel.
use vpnp2p.Prelude.{
  ℕ, zero, suc, Bool, [], ◌∷◌, ◌++◌, ltb, ◌==◌, if◌then◌else◌, length, ℤ, pos, negsuc,
}
use vpnp2p.CString.{Bytes, codes, decimal}
use vpnp2p.NodeInfo.Heap.{
  Ptr, null, Cmd, pure, fail, ◌>>=◌, out_of_bounds, out_of_fuel, load_ip, load_node,
}

-- `fprintf(fp, …)` behind what was written; the stream takes every byte.
unfoldable pub fprintf : Bytes → Bytes → Cmd Bytes
fprintf out text = pure (out ++ text)

-- `offset += sprintf(buf + offset, …)` in a buffer of `size` bytes; the NUL has to fit too.
unfoldable pub sprintf : ℕ → Bytes → Bytes → Cmd Bytes
sprintf size out text =
    if ltb (length (out ++ text)) size then pure (out ++ text) else fail out_of_bounds

abbrev pub newline : Bytes
newline = b'\n' ∷ []

-- The inner loop of `struct2file`.
unfoldable pub write_ips : ℕ → Ptr → Bytes → Cmd Bytes
unfolding fprintf
write_ips zero p out = fail out_of_fuel
write_ips (suc fuel) p out = if p == null then pure out else do
  ip ← load_ip p
  out ← fprintf out (codes "ip: " ++ ip.ip ++ newline)
  out ← fprintf out (codes "ip_type: " ++ ip.type ++ newline)
  out ← fprintf out (codes "s_count: " ++ decimal ip.s_count ++ newline)
  out ← fprintf out (codes "validity: " ++ decimal ip.validity ++ newline)
  write_ips fuel ip.next_ip out

-- The outer loop.
unfoldable pub write_nodes : ℕ → Ptr → Bytes → Cmd Bytes
unfolding fprintf write_ips
write_nodes zero p out = fail out_of_fuel
write_nodes (suc fuel) p out = if p == null then pure out else do
  node ← load_node p
  out ← fprintf out (codes "NODE\n")
  out ← fprintf out (codes "id: " ++ decimal node.id ++ newline)
  out ← fprintf out (codes "node_count: " ++ decimal node.node_count ++ newline)
  out ← fprintf out (codes "reliable: " ++ decimal node.reliable ++ newline)
  out ← fprintf out (codes "ip_list\n")
  out ← write_ips fuel node.ip_list out
  out ← fprintf out (codes "ip_list_ends\n")
  out ← fprintf out (codes "end_node\n")
  write_nodes fuel node.next_node out

-- The file's new contents, with what the function returns. If the file cannot be opened it stays
-- as it is.
unfoldable pub struct2file : ℕ → Bool → Bytes → Ptr → Cmd (Bytes × ℤ)
unfolding write_nodes
struct2file fuel opens file node =
    if opens then (do out ← write_nodes fuel node []; pure (out, pos 0)) else pure (file, negsuc 0)

-- The loops of `convert_node_to_buf`; the offset is the length of what was written.
unfoldable pub sprint_ips : ℕ → ℕ → Ptr → Bytes → Cmd Bytes
sprint_ips size zero p out = fail out_of_fuel
sprint_ips size (suc fuel) p out = if p == null then pure out else do
  ip ← load_ip p
  out ← sprintf size out (codes "ip: " ++ ip.ip ++ newline)
  out ← sprintf size out (codes "ip_type: " ++ ip.type ++ newline)
  out ← sprintf size out (codes "s_count: " ++ decimal ip.s_count ++ newline)
  out ← sprintf size out (codes "validity: " ++ decimal ip.validity ++ newline)
  sprint_ips size fuel ip.next_ip out

unfoldable pub sprint_nodes : ℕ → ℕ → Ptr → Bytes → Cmd Bytes
sprint_nodes size zero p out = fail out_of_fuel
sprint_nodes size (suc fuel) p out = if p == null then pure out else do
  node ← load_node p
  out ← sprintf size out (codes "NODE\n")
  out ← sprintf size out (codes "id: " ++ decimal node.id ++ newline)
  out ← sprintf size out (codes "node_count: " ++ decimal node.node_count ++ newline)
  out ← sprintf size out (codes "reliable: " ++ decimal node.reliable ++ newline)
  out ← sprintf size out (codes "ip_list\n")
  out ← sprint_ips size fuel node.ip_list out
  out ← sprintf size out (codes "ip_list_ends\n")
  out ← sprintf size out (codes "end_node\n")
  sprint_nodes size fuel node.next_node out

-- The bytes put into the buffer of `size` bytes, and the offset that the function returns.
unfoldable pub convert_node_to_buf : ℕ → ℕ → Ptr → Cmd (Bytes × ℕ)
convert_node_to_buf size fuel node = do out ← sprint_nodes size fuel node []; pure (out, length out)
