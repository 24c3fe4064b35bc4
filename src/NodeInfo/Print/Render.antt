-- ===== src/NodeInfo/Print/Render.antt =====
-- The text of a list of nodes, and that `struct2file` writes it.
use mathlib.Core.List.{append_assoc, append-nil}
use vpnp2p.Prelude.{
  ℕ, zero, suc, ◌+◌, ◌<◌, ◌≡◌, refl, ◌∙◌, true, List, [], ◌∷◌, ◌++◌, arith, length, pos,
}
use vpnp2p.CString.{Bytes, codes, decimal}
use vpnp2p.NodeInfo.Access.{not_null, load_ip-ok, load_node-ok}
use vpnp2p.NodeInfo.Chain.{IpChain, NodeChain}
use vpnp2p.NodeInfo.Heap.{Ptr, Heap, ok}
use vpnp2p.NodeInfo.Lines.{unlines}
use vpnp2p.NodeInfo.Print.Defs.{write_ips, write_nodes, struct2file}
use vpnp2p.NodeInfo.Values.{Ip, Node}

-- The lines of one address, of the addresses of a node, and of the nodes.
abbrev pub ip_lines : Ip → List Bytes → List Bytes
ip_lines x rest =
    (codes "ip: " ++ x.ip)
    ∷ (codes "ip_type: " ++ x.type)
    ∷ (codes "s_count: " ++ decimal x.s_count)
    ∷ (codes "validity: " ++ decimal x.validity)
    ∷ rest

abbrev pub ips_lines : List Ip → List Bytes → List Bytes
ips_lines [] rest = codes "ip_list_ends" ∷ codes "end_node" ∷ rest
ips_lines (x ∷ xs) rest = ip_lines x (ips_lines xs rest)

abbrev pub node_lines : List Node → List Bytes
node_lines [] = []
node_lines (n ∷ ns) =
    codes "NODE"
    ∷ (codes "id: " ++ decimal n.id)
    ∷ (codes "node_count: " ++ decimal n.node_count)
    ∷ (codes "reliable: " ++ decimal n.reliable)
    ∷ codes "ip_list"
    ∷ ips_lines n.ip_list (node_lines ns)

-- The text of a list of nodes.
unfoldable pub render : List Node → Bytes
render ns = unlines (node_lines ns)

-- The text of the addresses of one node.
abbrev pub ips_text : List Ip → Bytes
ips_text [] = []
ips_text (x ∷ xs) = unlines (ip_lines x []) ++ ips_text xs

pub unlines-ips_lines :
    (xs : List Ip) (rest : List Bytes)
    → unlines (ips_lines xs rest)
      ≡ ips_text xs ++ (codes "ip_list_ends\n" ++ (codes "end_node\n" ++ unlines rest))
unlines-ips_lines [] rest = refl
unlines-ips_lines (x ∷ xs) rest = simp (unlines-ips_lines xs rest, append_assoc)

write_ips-text :
    (fuel : ℕ) (h : Heap) (p : Ptr) (xs : List Ip) (out : Bytes)
    → length xs < fuel
    → IpChain h.ips h.brk p xs
    → write_ips fuel p out h ≡ ok (out ++ ips_text xs) h
unfolding write_ips
write_ips-text zero h p xs out room c = elim room [ ]
write_ips-text (suc fuel) h p [] out room c = rw (c, append-nil)
write_ips-text (suc fuel) h p (x ∷ xs) out room (positive, low, info, rest) =
    rw (← info, not_null p positive, load_ip-ok p h positive low)
      (write_ips-text fuel h (h.ips p).next_ip xs _ (omega arith) rest ∙ simp append_assoc)

-- The cells of a list of nodes, those of the addresses included.
abbrev pub cells : List Node → ℕ
cells [] = 0
cells (n ∷ ns) = suc (length n.ip_list) + cells ns

write_nodes-render :
    (fuel : ℕ) (h : Heap) (lo p : Ptr) (ns : List Node) (out : Bytes)
    → cells ns < fuel
    → NodeChain h h.brk lo h.brk p ns
    → write_nodes fuel p out h ≡ ok (out ++ render ns) h
unfolding write_nodes render
write_nodes-render zero h lo p ns out room c = elim room [ ]
write_nodes-render (suc fuel) h lo p [] out room c = rw (c, append-nil)
write_nodes-render (suc fuel) h lo p (n ∷ ns) out room (positive, above, low, v, rest) =
    rw (← v.id, ← v.node_count, ← v.reliable, not_null p positive, load_node-ok p h positive low)
      (rw (write_ips-text fuel h (h.nodes p).ip_list n.ip_list _ (omega arith) v.ip_list) (
        write_nodes-render fuel h (suc p) (h.nodes p).next_node ns _ (omega arith) rest
        ∙ simp (unlines-ips_lines, append_assoc)))

-- If the file can be opened and the fuel exceeds the number of cells of the list, `struct2file`
-- returns 0 and replaces the file by the text of the list.
pub struct2file-render :
    (fuel : ℕ) (h : Heap) (lo p : Ptr) (ns : List Node) (file : Bytes)
    → cells ns < fuel
    → NodeChain h h.brk lo h.brk p ns
    → struct2file fuel true file p h ≡ ok (render ns, pos 0) h
unfolding struct2file
struct2file-render fuel h lo p ns file room c = rw (write_nodes-render fuel h lo p ns [] room c)
