-- ===== src/Start/File.antt =====
-- The file that `start` of InitTest/node_start.c writes.
use vpnp2p.Prelude.{
  ℕ, ◌+◌, ◌<◌, ◌≡◌, refl, sym, ap, ◌∙◌, Bool, true, Option, none, some, List, [], ◌∷◌, pos, arith,
  length,
}
use vpnp2p.CString.{Bytes, codes}
use vpnp2p.NodeInfo.Chain.{IpChain, IpChain-cons, NodeChain, NodeChain-cons}
use vpnp2p.NodeInfo.Generate.{link_new, generate_id}
use vpnp2p.NodeInfo.Heap.{Ptr, null, IpCell, NodeCell, Cmd, Heap, ok, pure, ◌>>=◌, ◌>>◌, malloc}
use vpnp2p.NodeInfo.Access.{store_node-ok}
use vpnp2p.NodeInfo.Parse.FileLines.{file_limits}
use vpnp2p.NodeInfo.Parse.ReadNodes.{AllNodesFit}
use vpnp2p.NodeInfo.Parse.Writes.{
  with_ip, with_node, set_id-ok, set_node_count-ok, set_reliable-ok, set_ip_list-ok, set_next_ip-ok,
}
use vpnp2p.NodeInfo.Parse.{file2struct, set_next_ip}
use vpnp2p.NodeInfo.Print.Render.{render, struct2file-render}
use vpnp2p.NodeInfo.Print.{struct2file}
use vpnp2p.NodeInfo.RoundTrip.{Builds, file2struct-render}
use vpnp2p.NodeInfo.Values.{Ip, Node}
use vpnp2p.Start.Defs.{fill_local_ips, server_ip_cell, cleared, generate_node_info, start}
use vpnp2p.Start.FillsIp.{started_ip, fill_local_ip-FillsIp, server_ip_cell-FillsIp}

-- The node with the address of the machine and the one that the user gives; `x` and `y` stand in the
-- memory that is not set.
abbrev pub started_node : ℕ → Bytes → Bytes → Ip → Ip → Node
started_node r s server x y = record {
  id = generate_id r;
  node_count = pos 1;
  reliable = pos 1;
  ip_list = started_ip s (codes "clientIP") x ∷ started_ip server (codes "serverIP") y ∷ [];
}

-- The heap in front of the loop, and what is left to do.
record Prepared (fuel r : ℕ) (slots : List (Option Bytes)) (server_ip : Option Bytes) (h h' : Heap)
    : Type 0 where
  run :
      generate_node_info fuel true r slots server_ip none h
      ≡ (do
        last ← fill_local_ips 10 slots (h.brk + 1)
        ip_server ← server_ip_cell server_ip
        set_next_ip last ip_server
        (text, code) ← struct2file fuel true [] h.brk
        pure (some text))
          h'
  cell : h'.nodes h.brk ≡ record {
    id = generate_id r;
    node_count = pos 1;
    reliable = pos 1;
    ip_list = h.brk + 1;
    next_node = null;
  }
  ips : h'.ips ≡ h.ips
  brk : h'.brk ≡ h.brk + 1 + 1

generate-Prepared :
    (fuel r : ℕ) (slots : List (Option Bytes)) (server_ip : Option Bytes) (h : Heap)
    → 0 < h.brk
    → (h' : Heap) × Prepared fuel r slots server_ip h h'
unfolding generate_node_info malloc
generate-Prepared fuel r slots server_ip h positive =
    let p = h.brk in
    let h₀ = record h { brk = h.brk + 1 } in
    let h₁ = with_node h₀ p cleared in
    let h₂ = with_node h₁ p (record (h₁.nodes p) { id = generate_id r }) in
    let h₃ = with_node h₂ p (record (h₂.nodes p) { node_count = pos 1 }) in
    let h₄ = with_node h₃ p (record (h₃.nodes p) { reliable = pos 1 }) in
    let h₅ = record h₄ { brk = h.brk + 1 + 1 } in
    let h₆ = with_node h₅ p (record (h₅.nodes p) { ip_list = h.brk + 1 }) in
    (
      h₆,
      record {
        run =
            rw
              (
                store_node-ok p h₀ positive (omega arith) cleared,
                set_id-ok p h₁ positive (omega arith) (generate_id r),
                set_node_count-ok p h₂ positive (omega arith) (pos 1),
                set_reliable-ok p h₃ positive (omega arith) (pos 1),
                set_ip_list-ok p h₅ positive (omega arith) (h.brk + 1),
              )
              refl;
        cell = ground arith;
        ips = refl;
        brk = refl;
      },
    )

-- The two cells of addresses, linked.
record Linked (q r : Ptr) (s server : Bytes) (h h' : Heap) : Type 0 where
  first :
      h'.ips q
      ≡ record (h.ips q) { info = started_ip s (codes "clientIP") (h.ips q).info; next_ip = r }
  second :
      h'.ips r ≡ record (h.ips r) { info = started_ip server (codes "serverIP") (h.ips r).info }
  nodes : h'.nodes ≡ h.nodes
  brk : h'.brk ≡ h.brk + 1

link-Linked :
    (q : Ptr) (s server : Bytes) (rest : List (Option Bytes)) (h : Heap) (k : Cmd (Option Bytes))
    → 0 < q
    → q < h.brk
    → length s < 20
    → length server < 20
    → (h' : Heap) × ((do
      last ← fill_local_ips 10 (some s ∷ none ∷ rest) q
      ip_server ← server_ip_cell (some server)
      set_next_ip last ip_server
      k)
          h
        ≡ k h')
      × Linked q h.brk s server h h'
unfolding fill_local_ips link_new
link-Linked q s server rest h k positive low short short₂ =
    let (h₁, run₁, e, size) = fill_local_ip-FillsIp q s h positive low short in
    let (h₂, run₂, f, size₂) = server_ip_cell-FillsIp server h₁ (omega arith) short₂ in
    let h₃ = with_ip h₂ q (record (h₂.ips q) { next_ip = h₁.brk }) in
    let r = h.brk in
    let same_q : h₂.ips q ≡ h₁.ips q = f.same q (omega arith) in
    let same_r : h₁.ips r ≡ h.ips r = e.same r (omega arith) in
    let written : h₃.ips q ≡ record (h₂.ips q) { next_ip = h₁.brk } = ground arith in
    let kept : h₃.ips r ≡ h₂.ips r = ground arith in
    (
      h₃,
      rw (run₁, run₂, set_next_ip-ok q h₂ positive (omega arith) h₁.brk) refl,
      record {
        first =
            written
            ∙ ap (λ (c : IpCell). record c { next_ip = h₁.brk }) (same_q ∙ e.cell)
            ∙ ap
                (λ a. record (h.ips q) {
                  info = started_ip s (codes "clientIP") (h.ips q).info;
                  next_ip = a;
                })
                size;
        second =
            kept
            ∙ ap (λ a. h₂.ips a) (sym size)
            ∙ f.cell
            ∙ ap (λ (c : IpCell). record c { info = started_ip server (codes "serverIP") c.info })
                (ap (λ a. h₁.ips a) size ∙ same_r);
        nodes = f.nodes ∙ e.nodes;
        brk = omega arith;
      },
    )

module _ (r : ℕ) (s server : Bytes) (rest : List (Option Bytes)) (h : Heap) (positive : 0 < h.brk)
    (short : length s < 20) (short₂ : length server < 20)
    (ip_end : (h.ips (h.brk + 2)).next_ip ≡ null) where
  abbrev node : Node
  node = started_node r s server (h.ips (h.brk + 1)).info (h.ips (h.brk + 2)).info

  built-NodeChain :
      (fuel : ℕ) (h₁ h₂ : Heap)
      → Prepared fuel r (some s ∷ none ∷ rest) (some server) h h₁
      → Linked (h.brk + 1) h₁.brk s server h₁ h₂
      → NodeChain h₂ h₂.brk h.brk h₂.brk h.brk (node ∷ [])
  built-NodeChain fuel h₁ h₂ e f =
      let q = h.brk + 1 in
      let p = h₁.brk in
      let size = f.brk in
      let at : p ≡ h.brk + 2 = e.brk ∙ omega arith in
      let ips : (a : Ptr) → h₁.ips a ≡ h.ips a = λ a. ap (λ (g : Ptr → IpCell). g a) e.ips in
      let there : h₁.ips p ≡ h.ips (h.brk + 2) = ips p ∙ ap (λ a. h.ips a) at in
      let first =
        f.first
        ∙ ap
            (λ (c : IpCell). record c {
              info = started_ip s (codes "clientIP") c.info;
              next_ip = p;
            })
            (ips q) in
      let second =
        f.second
        ∙ ap (λ (c : IpCell). record c { info = started_ip server (codes "serverIP") c.info })
            there in
      let cell = ap (λ (g : Ptr → NodeCell). g h.brk) f.nodes ∙ e.cell in
      let x = started_ip s (codes "clientIP") (h.ips q).info in
      let y = started_ip server (codes "serverIP") (h.ips (h.brk + 2)).info in
      let end : (h₂.ips p).next_ip ≡ null = ap (λ (c : IpCell). c.next_ip) second ∙ ip_end in
      let tail : IpChain h₂.ips h₂.brk p (y ∷ []) =
        IpChain-cons h₂.ips h₂.brk p null y [] (omega arith) (omega arith)
          (ap (λ (c : IpCell). c.info) second) end refl in
      let chain : IpChain h₂.ips h₂.brk q node.ip_list =
        IpChain-cons h₂.ips h₂.brk q p x (y ∷ []) (omega arith) (omega arith)
          (ap (λ (c : IpCell). c.info) first) (ap (λ (c : IpCell). c.next_ip) first) tail in
      NodeChain-cons h₂ h₂.brk h.brk h₂.brk h.brk null node [] positive (omega arith) (omega arith)
        (record {
          id = ap (λ (c : NodeCell). c.id) cell;
          node_count = ap (λ (c : NodeCell). c.node_count) cell;
          reliable = ap (λ (c : NodeCell). c.reliable) cell;
          ip_list = rw (ap (λ (c : NodeCell). c.ip_list) cell) chain;
        })
        (ap (λ (c : NodeCell). c.next_node) cell) refl

  -- The machine has one address; it and the address given have at most 19 bytes. If the memory for
  -- the second of them happens to end the list, the node of both, with what stood in memory as
  -- their validity, is one that `file2struct` reads whole, and there is no file but one can be
  -- written, `start` writes the text of that node, from which `file2struct` builds it again.
  pub start-file2struct :
      (fuel : ℕ) (use_cache : Bool) (g : Heap)
      → 3 < fuel
      → 0 < g.brk
      → AllNodesFit file_limits
          (started_node r s server (h.ips (h.brk + 1)).info (h.ips (h.brk + 2)).info ∷ [])
      → (text : Bytes) × (h' : Heap) × (p : Ptr) × (g' : Heap) × (start fuel true r
            (some s ∷ none ∷ rest)
            (some server)
            use_cache
            none
            h
          ≡ ok (some text) h')
        × (file2struct (some text) g ≡ ok p g')
        × Builds g
            (started_node r s server (h.ips (h.brk + 1)).info (h.ips (h.brk + 2)).info ∷ [])
            p
            g'
  unfolding start
  start-file2struct fuel use_cache g room g_pos fits =
      let (h₁, e) = generate-Prepared fuel r (some s ∷ none ∷ rest) (some server) h positive in
      let size = e.brk in
      let k : Cmd (Option Bytes) = (do
        (text, code) ← struct2file fuel true [] h.brk
        pure (some text)) in
      let (h₂, run, f) =
        link-Linked (h.brk + 1) s server rest h₁ k (omega arith) (omega arith) short short₂ in
      let (p, g', read, builds) = file2struct-render (node ∷ []) g g_pos fits in
      (
        render (node ∷ []),
        h₂,
        p,
        g',
        e.run
            ∙ run
            ∙ rw
                (struct2file-render fuel h₂ h.brk h.brk (node ∷ []) [] room
                  (built-NodeChain fuel h₁ h₂ e f))
                refl,
        read,
        builds,
      )
