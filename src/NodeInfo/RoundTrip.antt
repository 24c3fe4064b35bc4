-- ===== src/NodeInfo/RoundTrip.antt =====
-- `convert_buf_to_node` and `file2struct` read back what `convert_node_to_buf` and `struct2file` write.
use vpnp2p.Prelude.{
  ◌+◌, ◌≤◌, ◌<◌, ◌≡◌, refl, sym, ap, ◌∙◌, some, List, [], ◌∷◌, map, arith, length, pos,
}
use mathlib.Core.Path.{subst, fun_ext}
use vpnp2p.CString.{Bytes}
use vpnp2p.NodeInfo.Access.{load_node-ok}
use vpnp2p.NodeInfo.Chain.{NodeChain}
use vpnp2p.NodeInfo.Heap.{Ptr, null, NodeCell, Heap, Cmd, ok, and_then, malloc, ◌>>=◌}
use vpnp2p.NodeInfo.Lines.Laws.{split-unlines, fgets_all-unlines, with_newline}
use vpnp2p.NodeInfo.Parse.BufLines.{buf_limits, buf_step-LineReader}
use vpnp2p.NodeInfo.Parse.FileLines.{file_limits, file_step-LineReader}
use vpnp2p.NodeInfo.Parse.FormatLines.{node_lines-AllLines}
use vpnp2p.NodeInfo.Parse.LineReader.{Limits, LineReader}
use vpnp2p.NodeInfo.Parse.ReadList.{read_nodes}
use vpnp2p.NodeInfo.Parse.NodeEnds.{AtNode}
use vpnp2p.NodeInfo.Parse.ReadNodes.{AllNodesFit}
use vpnp2p.NodeInfo.Parse.Writes.{with_node, set_id-ok, set_next_node-ok}
use vpnp2p.NodeInfo.Parse.{
  Cursor, open_nodes, close_nodes, read_lines, file_step, convert_buf_to_node, file2struct,
}
use vpnp2p.NodeInfo.Print.Render.{node_lines, render}
use vpnp2p.NodeInfo.Values.{Node}

-- A run that builds a list and leaves alone all that was allocated.
pub record Builds (h : Heap) (ns : List Node) (p : Ptr) (h' : Heap) : Type 0 where
  pub chain : NodeChain h' h'.brk h.brk h'.brk p ns
  pub same_nodes : (a : Ptr) → a < h.brk → h'.nodes a ≡ h.nodes a
  pub same_ips : (a : Ptr) → a < h.brk → h'.ips a ≡ h.ips a
  pub grows : h.brk ≤ h'.brk

-- The heap behind `open_nodes`.
abbrev opened : Heap → Heap
opened h =
    let p = h.brk in
    let q = h.brk + 1 in
    let h₀ = record h { brk = h.brk + 1 + 1 } in
    let h₁ = with_node h₀ q (record (h₀.nodes q) { id = pos 0 }) in
    with_node h₁ q (record (h₁.nodes q) { next_node = p })

open_nodes-ok : (h : Heap) → open_nodes h ≡ ok (h.brk, h.brk + 1) (opened h)
unfolding open_nodes malloc
open_nodes-ok h =
    let q = h.brk + 1 in
    let h₀ = record h { brk = h.brk + 1 + 1 } in
    let h₁ = with_node h₀ q (record (h₀.nodes q) { id = pos 0 }) in
    rw (
      set_id-ok q h₀ (omega arith) (omega arith) (pos 0),
      set_next_node-ok q h₁ (omega arith) (omega arith) h.brk,
    )

-- The middle of both readers, from a heap `h₁` whose cells from `base` on are the header and the
-- cell of the first node.
module _ {l : Limits} {step : Bytes → Cursor → Cmd Cursor} (r : LineReader l step) where
  read_close :
      (ns : List Node) (base : Ptr) (c : Cursor) (h₁ : Heap)
      → 0 < base
      → c.node_new ≡ base
      → c.prev ≡ base + 1
      → base + 1 < h₁.brk
      → (h₁.nodes (base + 1)).next_node ≡ base
      → AllNodesFit l ns
      → (p : Ptr) × (h' : Heap) × ((do
        c' ← read_lines step (node_lines ns) c
        close_nodes (base + 1) c')
            h₁
          ≡ ok p h')
        × NodeChain h' h'.brk base h'.brk p ns
        × ((a : Ptr) → a < base → h'.nodes a ≡ h₁.nodes a)
        × ((a : Ptr) → a < base → h'.ips a ≡ h₁.ips a)
        × (h₁.brk ≤ h'.brk)
  read_close [] base c h₁ positive new prev low linked fits =
      let q = base + 1 in
      let h₂ = with_node h₁ q (record (h₁.nodes q) { next_node = null }) in
      let cut : (h₂.nodes q).next_node ≡ null = ground arith in
      (
        null,
        h₂,
        unfold read_lines close_nodes in
            rw
              (
                prev,
                set_next_node-ok q h₁ (omega arith) low null,
                load_node-ok q h₂ (omega arith) low,
              )
              (ap (λ a. ok a h₂) cut),
        refl,
        λ a under. ground arith,
        λ a under. refl,
        omega arith,
      )
  read_close (n ∷ ns) base c h₁ positive new prev low linked fits =
      let q = base + 1 in
      let at : AtNode c h₁ = record {
        new_positive = omega arith;
        new_low = omega arith;
        prev_positive = omega arith;
        prev_low = omega arith;
        apart = omega arith;
        linked = ap (λ a. (h₁.nodes a).next_node) prev ∙ linked ∙ sym new;
      } in
      let (c', h₂, h₃, run, cut, e) = read_nodes r n ns c h₁ at fits in
      let kept : h₃.nodes q ≡ h₁.nodes q = e.same_nodes q (omega arith) low in
      let first : (h₃.nodes q).next_node ≡ base =
        ap (λ (x : NodeCell). x.next_node) kept ∙ linked in
      (
        base,
        h₃,
        rw run (
            unfold close_nodes in
            rw (cut, load_node-ok q h₃ (omega arith) (omega arith)) (ap (λ a. ok a h₃) first)),
        subst (λ a. NodeChain h₃ h₃.brk a h₃.brk a (n ∷ ns)) new e.chain,
        λ a under. e.same_nodes a (omega arith) (omega arith),
        λ a under. e.same_ips a (omega arith),
        e.grows,
      )

-- From the text of a list `convert_buf_to_node` builds that list in fresh cells and leaves the
-- others alone. Every node has an address, numbers print in at most nine characters, addresses
-- have at most 19 and types at most 9 bytes, none of them a newline, and the text has at most 50
-- lines.
pub convert_buf_to_node-render :
    (ns : List Node) (h : Heap)
    → 0 < h.brk
    → AllNodesFit buf_limits ns
    → length (node_lines ns) ≤ 50
    → (p : Ptr) × (h' : Heap) × (convert_buf_to_node (render ns) h ≡ ok p h') × Builds h ns p h'
unfolding convert_buf_to_node render
convert_buf_to_node-render ns h positive fits few =
    let start : Cursor = record {
      node_new = h.brk;
      prev = h.brk + 1;
      ip_new = null;
      ip_header = null;
    } in
    let (p, h', run, chain, same_nodes, same_ips, grows) =
      read_close buf_step-LineReader ns h.brk start (opened h) positive refl refl (omega arith)
        (ground arith) fits in
    (
      p,
      h',
      rw
          (
            split-unlines (node_lines ns) h
                (node_lines-AllLines buf_limits 80 (omega arith) ns fits) few,
            open_nodes-ok h,
          )
          run,
      record {
        chain = chain;
        same_nodes = λ a low. same_nodes a low ∙ ground arith;
        same_ips = same_ips;
        grows = omega arith;
      },
    )

read_lines-map :
    (step : Bytes → Cursor → Cmd Cursor) (f : Bytes → Bytes) (ls : List Bytes) (c : Cursor)
    → read_lines step (map f ls) c ≡ read_lines (λ l. step (f l)) ls c
unfolding read_lines
read_lines-map step f [] c = refl
read_lines-map step f (l ∷ ls) c =
    fun_ext λ h. ap (and_then (step (f l) c h)) (fun_ext λ c'. read_lines-map step f ls c')

-- From a file that holds the text of a list `file2struct` builds that list in fresh cells and
-- leaves the others alone. Every node has an address, numbers are values of an `int`, and
-- addresses and types have at most 19 bytes, none of them a newline or a tab.
pub file2struct-render :
    (ns : List Node) (h : Heap)
    → 0 < h.brk
    → AllNodesFit file_limits ns
    → (p : Ptr) × (h' : Heap) × (file2struct (some (render ns)) h ≡ ok p h') × Builds h ns p h'
unfolding file2struct render malloc
file2struct-render ns h positive fits =
    let start : Cursor = record {
      node_new = h.brk;
      prev = h.brk + 1;
      ip_new = h.brk + 1 + 1;
      ip_header = h.brk + 1 + 1 + 1;
    } in
    let h₁ = record (opened h) { brk = h.brk + 1 + 1 + 1 + 1 } in
    let (p, h', run, chain, same_nodes, same_ips, grows) =
      read_close file_step-LineReader ns h.brk start h₁ positive refl refl (omega arith)
        (ground arith) fits in
    (
      p,
      h',
      rw
          (
            open_nodes-ok h,
            fgets_all-unlines (node_lines ns)
                (node_lines-AllLines file_limits 254 (omega arith) ns fits),
            read_lines-map file_step with_newline (node_lines ns) start,
          )
          run,
      record {
        chain = chain;
        same_nodes = λ a low. same_nodes a low ∙ ground arith;
        same_ips = same_ips;
        grows = omega arith;
      },
    )
