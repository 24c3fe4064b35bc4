-- ===== src/NodeInfo/Print/Sprint.antt =====
-- `convert_node_to_buf` writes the text of a list of nodes.
use mathlib.Core.List.{append_assoc, append-nil}
use vpnp2p.Prelude.{
  ℕ, zero, suc, ◌+◌, ◌<◌, ◌≡◌, ◌∙◌, List, [], ◌∷◌, ◌++◌, arith, length, length-append,
}
use vpnp2p.CString.{Bytes, codes, decimal}
use vpnp2p.NodeInfo.Access.{not_null, load_ip-ok, load_node-ok}
use vpnp2p.NodeInfo.Chain.{IpChain, NodeChain}
use vpnp2p.NodeInfo.Heap.{Ptr, NodeCell, Heap, ok}
use vpnp2p.NodeInfo.Lines.{unlines}
use vpnp2p.NodeInfo.Print.Defs.{sprintf, newline, sprint_ips, sprint_nodes, convert_node_to_buf}
use vpnp2p.NodeInfo.Values.{Ip, Node}
use vpnp2p.NodeInfo.Print.Render.{ip_lines, render, ips_text, unlines-ips_lines, cells}

sprintf-ok :
    (size : ℕ) (out text : Bytes) (h : Heap)
    → length out + length text < size
    → sprintf size out text h ≡ ok (out ++ text) h
unfolding sprintf
sprintf-ok size out text h room = rw length-append (ground arith)

abbrev field : Bytes → Bytes → Bytes
field label value = label ++ value ++ newline

sprint_ip-text :
    (size fuel : ℕ) (h : Heap) (p : Ptr) (out : Bytes)
    → 0 < p
    → p < h.brk
    → length out + length (unlines (ip_lines (h.ips p).info [])) < size
    → sprint_ips size (suc fuel) p out h
      ≡ sprint_ips size fuel (h.ips p).next_ip (out ++ unlines (ip_lines (h.ips p).info [])) h
unfolding sprint_ips
sprint_ip-text size fuel h p out positive low space =
    let c = h.ips p in
    let fits = simp length-append at space in
    let t₁ = field (codes "ip: ") c.ip in
    let t₂ = field (codes "ip_type: ") c.type in
    let t₃ = field (codes "s_count: ") (decimal c.s_count) in
    let t₄ = field (codes "validity: ") (decimal c.validity) in
    rw
      (
        not_null p positive,
        load_ip-ok p h positive low,
        sprintf-ok size out t₁ h (simp length-append (omega arith)),
        sprintf-ok size (out ++ t₁) t₂ h (simp length-append (omega arith)),
        sprintf-ok size (out ++ t₁ ++ t₂) t₃ h (simp length-append (omega arith)),
        sprintf-ok size (out ++ t₁ ++ t₂ ++ t₃) t₄ h (simp length-append (omega arith)),
      )
      (simp append_assoc)

sprint_ips-text :
    (size fuel : ℕ) (h : Heap) (p : Ptr) (xs : List Ip) (out : Bytes)
    → length xs < fuel
    → length out + length (ips_text xs) < size
    → IpChain h.ips h.brk p xs
    → sprint_ips size fuel p out h ≡ ok (out ++ ips_text xs) h
sprint_ips-text size zero h p xs out room space c = elim room [ ]
sprint_ips-text size (suc fuel) h p [] out room space c = unfold sprint_ips in rw (c, append-nil)
sprint_ips-text size (suc fuel) h p (x ∷ xs) out room space (positive, low, info, rest) =
    let fits = rw (← info) at space in
    let total = simp length-append at fits in
    rw (← info) (
      sprint_ip-text size fuel h p out positive low (simp length-append (omega arith))
      ∙ sprint_ips-text size fuel h (h.ips p).next_ip xs _ (omega arith)
          (simp length-append (omega arith)) rest
      ∙ simp append_assoc)

abbrev head_text : NodeCell → Bytes
head_text c =
    codes "NODE\n"
    ++ field (codes "id: ") (decimal c.id)
    ++ field (codes "node_count: ") (decimal c.node_count)
    ++ field (codes "reliable: ") (decimal c.reliable)
    ++ codes "ip_list\n"

abbrev end_text : Bytes
end_text = codes "ip_list_ends\n" ++ codes "end_node\n"

sprint_node-text :
    (size fuel : ℕ) (h : Heap) (p : Ptr) (xs : List Ip) (out : Bytes)
    → 0 < p
    → p < h.brk
    → IpChain h.ips h.brk (h.nodes p).ip_list xs
    → length xs < fuel
    → length out + length (head_text (h.nodes p)) + length (ips_text xs) + length end_text < size
    → sprint_nodes size (suc fuel) p out h
      ≡ sprint_nodes size fuel
          (h.nodes p).next_node
          (out ++ head_text (h.nodes p) ++ ips_text xs ++ end_text)
          h
unfolding sprint_nodes
sprint_node-text size fuel h p xs out positive low chain room space =
    let fits = simp length-append at space in
    let c = h.nodes p in
    let t₁ = codes "NODE\n" in
    let t₂ = field (codes "id: ") (decimal c.id) in
    let t₃ = field (codes "node_count: ") (decimal c.node_count) in
    let t₄ = field (codes "reliable: ") (decimal c.reliable) in
    let t₅ = codes "ip_list\n" in
    let s₅ = out ++ t₁ ++ t₂ ++ t₃ ++ t₄ ++ t₅ in
    let s₆ = s₅ ++ ips_text xs in
    rw
      (
        not_null p positive,
        load_node-ok p h positive low,
        sprintf-ok size out t₁ h (omega arith),
        sprintf-ok size (out ++ t₁) t₂ h (simp length-append (omega arith)),
        sprintf-ok size (out ++ t₁ ++ t₂) t₃ h (simp length-append (omega arith)),
        sprintf-ok size (out ++ t₁ ++ t₂ ++ t₃) t₄ h (simp length-append (omega arith)),
        sprintf-ok size (out ++ t₁ ++ t₂ ++ t₃ ++ t₄) t₅ h (simp length-append (omega arith)),
        sprint_ips-text size fuel h c.ip_list xs s₅ room (simp length-append (omega arith)) chain,
        sprintf-ok size s₆ (codes "ip_list_ends\n") h (simp length-append (omega arith)),
        sprintf-ok size (s₆ ++ codes "ip_list_ends\n") (codes "end_node\n") h
            (simp length-append (omega arith)),
      )
      (simp append_assoc)

render-cons :
    (n : Node) (ns : List Node) (c : NodeCell)
    → c.id ≡ n.id
    → c.node_count ≡ n.node_count
    → c.reliable ≡ n.reliable
    → render (n ∷ ns) ≡ head_text c ++ ips_text n.ip_list ++ end_text ++ render ns
unfolding render
render-cons n ns c i k r = rw (← i, ← k, ← r) (simp (unlines-ips_lines, append_assoc))

sprint_nodes-render :
    (size fuel : ℕ) (h : Heap) (lo p : Ptr) (ns : List Node) (out : Bytes)
    → cells ns < fuel
    → length out + length (render ns) < size
    → NodeChain h h.brk lo h.brk p ns
    → sprint_nodes size fuel p out h ≡ ok (out ++ render ns) h
sprint_nodes-render size zero h lo p ns out room space c = elim room [ ]
sprint_nodes-render size (suc fuel) h lo p [] out room space c =
    unfold sprint_nodes render in rw (c, append-nil)
sprint_nodes-render size (suc fuel) h lo p (n ∷ ns) out room space (positive, above, low, v, rest) =
    let text = render-cons n ns (h.nodes p) v.id v.node_count v.reliable in
    let fits = rw text at space in
    let total = simp length-append at fits in
    rw text (
      sprint_node-text size fuel h p n.ip_list out positive low v.ip_list (omega arith)
        (simp length-append (omega arith))
      ∙ sprint_nodes-render size fuel h (suc p) (h.nodes p).next_node ns _ (omega arith)
          (simp length-append (omega arith)) rest
      ∙ simp append_assoc)

-- If the text of the list and its NUL fit the buffer and the fuel exceeds the number of cells,
-- `convert_node_to_buf` writes the text and returns its length.
pub convert_node_to_buf-render :
    (size fuel : ℕ) (h : Heap) (lo p : Ptr) (ns : List Node)
    → cells ns < fuel
    → length (render ns) < size
    → NodeChain h h.brk lo h.brk p ns
    → convert_node_to_buf size fuel p h ≡ ok (render ns, length (render ns)) h
unfolding convert_node_to_buf
convert_node_to_buf-render size fuel h lo p ns room space c =
    rw (sprint_nodes-render size fuel h lo p ns [] room (omega arith) c)
