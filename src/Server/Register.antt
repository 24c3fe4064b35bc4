-- ===== src/Server/Register.antt =====
-- `handle_register` of server.c as one step on lists of nodes.
use vpnp2p.Prelude.{ℕ, ◌≤◌, ◌<◌, ◌≡◌, refl, true, some, List, [], ◌∷◌, pos, arith, length, inr}
use vpnp2p.Message.{buf_size, r_register}
use vpnp2p.NodeInfo.Chain.{NodeChain-frame}
use vpnp2p.NodeInfo.Heap.{Ptr, Heap, ok}
use vpnp2p.NodeInfo.Merge.Refines.{TwoLists, node_merge-merge}
use vpnp2p.NodeInfo.Merge.Spec.{merge}
use vpnp2p.NodeInfo.Merge.{node_merge}
use vpnp2p.NodeInfo.Parse.{convert_buf_to_node, file2struct}
use vpnp2p.NodeInfo.Print.{struct2file, convert_node_to_buf}
use vpnp2p.NodeInfo.Parse.BufLines.{buf_limits}
use vpnp2p.NodeInfo.Parse.FileLines.{file_limits}
use vpnp2p.NodeInfo.Parse.ReadNodes.{AllNodesFit}
use vpnp2p.NodeInfo.Print.Render.{node_lines, render, cells, struct2file-render}
use vpnp2p.NodeInfo.Print.Sprint.{convert_node_to_buf-render}
use vpnp2p.NodeInfo.RoundTrip.{Builds, convert_buf_to_node-render, file2struct-render}
use vpnp2p.NodeInfo.Values.{Node}
use vpnp2p.Server.Defs.{handle_register, type_array}

-- Lists that were built one after the other share no cell.
TwoLists-Builds :
    (h h₁ h₂ : Heap) (p₁ p₂ : Ptr) (ns ms : List Node)
    → 0 < h.brk
    → Builds h ms p₂ h₁
    → Builds h₁ ns p₁ h₂
    → TwoLists h₂ h₂.brk h₁.brk h₂.brk p₁ ns h.brk h₁.brk p₂ ms
TwoLists-Builds h h₁ h₂ p₁ p₂ ns ms positive b c = record {
  first = c.chain;
  second =
      NodeChain-frame h₁ h₂ h₁.brk h.brk h₁.brk h₂.brk h.brk h₁.brk p₂ ms c.grows (omega arith)
        (omega arith) c.same_ips (λ a l u. c.same_nodes a u) b.chain;
  lists = inr (omega arith);
  first_low = omega arith;
  second_low = c.grows;
  positive = omega arith;
}

-- The text of a message is merged into the text of the file: `p₁` leads to the merged list, which is
-- written and printed.
pub record MergesTexts (fuel : ℕ) (ns ms merged : List Node) (h : Heap) : Type 0 where
  pub p₁ : Ptr
  pub p₂ : Ptr
  pub h₁ : Heap
  pub h₂ : Heap
  pub h₃ : Heap
  pub parse : convert_buf_to_node (render ms) h ≡ ok p₂ h₁
  pub read : file2struct (some (render ns)) h₁ ≡ ok p₁ h₂
  pub run : node_merge fuel p₁ p₂ h₂ ≡ ok (pos 0) h₃
  pub write : struct2file fuel true [] p₁ h₃ ≡ ok (render merged, pos 0) h₃
  pub print :
      convert_node_to_buf buf_size fuel p₁ h₃ ≡ ok (render merged, length (render merged)) h₃
  pub grows : h.brk ≤ h₃.brk

pub register-MergesTexts :
    (fuel : ℕ) (n : Node) (ns ms : List Node) (h : Heap)
    → 0 < h.brk
    → AllNodesFit buf_limits ms
    → length (node_lines ms) ≤ 50
    → AllNodesFit file_limits (n ∷ ns)
    → length (n ∷ ns) < fuel
    → length ms < fuel
    → cells (merge (n ∷ ns) ms) < fuel
    → length (render (merge (n ∷ ns) ms)) < buf_size
    → MergesTexts fuel (n ∷ ns) ms (merge (n ∷ ns) ms) h
register-MergesTexts fuel n ns ms h positive fits few file_fits room room₂ room₃ small =
    let (p₂, h₁, parse, b) = convert_buf_to_node-render ms h positive fits few in
    let (p₁, h₂, read, c) = file2struct-render (n ∷ ns) h₁ (omega (arith, b.grows)) file_fits in
    let (h₃, run, chain, ips, grows) =
      node_merge-merge fuel h₂ h₂.brk h₁.brk h₂.brk p₁ n ns h.brk h₁.brk p₂ ms room room₂
        (TwoLists-Builds h h₁ h₂ p₁ p₂ (n ∷ ns) ms positive b c) in
    let merged = merge (n ∷ ns) ms in
    let whole =
      NodeChain-frame h₃ h₃ h₂.brk h₁.brk h₃.brk h₃.brk h₁.brk h₃.brk p₁ merged grows (omega arith)
        (omega arith) (λ a l. refl) (λ a l u. refl) chain in
    record {
      p₁ = p₁;
      p₂ = p₂;
      h₁ = h₁;
      h₂ = h₂;
      h₃ = h₃;
      parse = parse;
      read = read;
      run = run;
      write = struct2file-render fuel h₃ h₁.brk p₁ merged [] room₃ whole;
      print = convert_node_to_buf-render buf_size fuel h₃ h₁.brk p₁ merged room₃ small whole;
      grows = omega (arith, b.grows, c.grows);
    }

-- `handle_register` merges the list in the message into the list in the file: the file then holds
-- the merged list, and the reply is its text. The message holds the text of a list that
-- `convert_buf_to_node` reads whole (`AllNodesFit buf_limits`, at most 50 lines), the file that of
-- a list of at least one node that `file2struct` reads whole, the file can be written, the fuel
-- exceeds the lists, and the merged text is shorter than a buffer.
pub handle_register-merge :
    (fuel : ℕ) (n : Node) (ns ms : List Node) (h : Heap)
    → 0 < h.brk
    → AllNodesFit buf_limits ms
    → length (node_lines ms) ≤ 50
    → AllNodesFit file_limits (n ∷ ns)
    → length (n ∷ ns) < fuel
    → length ms < fuel
    → cells (merge (n ∷ ns) ms) < fuel
    → length (render (merge (n ∷ ns) ms)) < buf_size
    → (h' : Heap) × (handle_register fuel true (render ms) (some (render (n ∷ ns))) h
        ≡ ok
            (
              some (render (merge (n ∷ ns) ms)),
              record {
                type = type_array r_register;
                buf = render (merge (n ∷ ns) ms);
                size = pos (length (render (merge (n ∷ ns) ms)));
              },
            )
            h')
      × (h.brk ≤ h'.brk)
unfolding handle_register
handle_register-merge fuel n ns ms h positive fits few file_fits room room₂ room₃ small =
    let e =
      register-MergesTexts fuel n ns ms h positive fits few file_fits room room₂ room₃ small in
    (e.h₃, rw (e.parse, e.read, e.run, e.write, e.print) refl, e.grows)
