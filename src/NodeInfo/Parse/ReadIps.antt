-- ===== src/NodeInfo/Parse/ReadIps.antt =====
-- A reader of lines builds the addresses of a node.
use vpnp2p.Prelude.{◌+◌, ◌≤◌, ◌<◌, ◌≡◌, ◌≢◌, refl, ap, ◌∙◌, List, [], ◌∷◌, ℤ, arith}
use vpnp2p.CString.{Bytes, codes}
use vpnp2p.NodeInfo.Access.{load_ip-ok}
use vpnp2p.NodeInfo.Chain.{IpChain, IpChain-cons}
use vpnp2p.NodeInfo.Heap.{Ptr, null, IpCell, Heap, Cmd, ok, malloc}
use vpnp2p.NodeInfo.Parse.Defs.{Cursor, end_ip, read_lines}
use vpnp2p.NodeInfo.Parse.LineReader.{Limits, LineReader}
use vpnp2p.NodeInfo.Parse.Writes.{
  with_ip, set_ip-ok, set_type-ok, set_s_count-ok, set_validity-ok, set_next_ip-ok,
}
use vpnp2p.NodeInfo.Print.Render.{ip_lines, ips_lines}
use vpnp2p.NodeInfo.Values.{Ip}

-- The pointers between two addresses: `ip_new` is the cell to fill, behind `ip_header`.
pub record AtIp (c : Cursor) (h : Heap) : Type 0 where
  pub new_positive : 0 < c.ip_new
  pub new_low : c.ip_new < h.brk
  pub header_positive : 0 < c.ip_header
  pub header_low : c.ip_header < h.brk
  pub apart : c.ip_header ≢ c.ip_new
  pub linked : (h.ips c.ip_header).next_ip ≡ c.ip_new

-- The effect of `end_ip`: the cell is linked to a fresh one, which is the next to fill.
record EndsIp (c : Cursor) (h : Heap) (z : ℤ) (h' : Heap) : Type 0 where
  run : end_ip c z h ≡ ok (record c { ip_new = h.brk; ip_header = c.ip_new }) h'
  info : (h'.ips c.ip_new).info ≡ record (h.ips c.ip_new).info { validity = z }
  next_ip : (h'.ips c.ip_new).next_ip ≡ h.brk
  same : (a : Ptr) → a ≢ c.ip_new → a < h.brk → h'.ips a ≡ h.ips a
  nodes : h'.nodes ≡ h.nodes
  brk : h'.brk ≡ h.brk + 1

end_ip-EndsIp : (c : Cursor) (h : Heap) (z : ℤ) → AtIp c h → (h' : Heap) × EndsIp c h z h'
unfolding malloc end_ip
end_ip-EndsIp c h z at =
    let p = c.ip_new in
    let t = h.brk in
    let valued = record (h.ips p) { info = record (h.ips p).info { validity = z } } in
    let h₀ = with_ip h p valued in
    let h₁ = record h₀ { brk = h.brk + 1 } in
    let h₂ = with_ip h₁ t (record (h₁.ips t) { next_ip = null }) in
    let h₃ = with_ip h₂ p (record (h₂.ips p) { next_ip = t }) in
    let linked : (h₀.ips c.ip_header).next_ip ≡ p = ground arith in
    (
      h₃,
      record {
        run =
            rw
              (
                set_validity-ok p h at.new_positive at.new_low z,
                load_ip-ok c.ip_header h₀ at.header_positive at.header_low,
                set_next_ip-ok t h₁ (omega arith) (omega arith) null,
                set_next_ip-ok p h₂ at.new_positive (omega arith) t,
              )
              (ap (λ q. ok (record c { ip_new = t; ip_header = q }) h₃) linked);
        info = ground arith;
        next_ip = ground arith;
        same = λ a ne low. ground arith;
        nodes = refl;
        brk = refl;
      },
    )

-- The addresses that the reader takes.
pub record IpFits (l : Limits) (x : Ip) : Type 0 where
  pub ip : l.IpFits x.ip
  pub type : l.TypeFits x.type
  pub s_count : l.IntFits x.s_count
  pub validity : l.IntFits x.validity

abbrev pub AllIpsFit : Limits → List Ip → Type 0
AllIpsFit l [] = Unit
AllIpsFit l (x ∷ xs) = IpFits l x × AllIpsFit l xs

-- The cell `ip_new` is filled with `x` and linked to a fresh cell.
record ReadsIp (c : Cursor) (h : Heap) (x : Ip) (h' : Heap) : Type 0 where
  info : (h'.ips c.ip_new).info ≡ x
  next_ip : (h'.ips c.ip_new).next_ip ≡ h.brk
  same : (a : Ptr) → a ≢ c.ip_new → a < h.brk → h'.ips a ≡ h.ips a
  nodes : h'.nodes ≡ h.nodes
  brk : h'.brk ≡ h.brk + 1

abbrev next_cursor : Cursor → Heap → Cursor
next_cursor c h = record c { ip_new = h.brk; ip_header = c.ip_new }

module _ {l : Limits} {step : Bytes → Cursor → Cmd Cursor} (r : LineReader l step) where
  read_ip :
      (x : Ip) (rest : List Bytes) (c : Cursor) (h : Heap)
      → AtIp c h
      → IpFits l x
      → (h' : Heap) × (read_lines step (ip_lines x rest) c h
          ≡ read_lines step rest (next_cursor c h) h')
        × ReadsIp c h x h'
  unfolding read_lines
  read_ip x rest c h at fits =
      let p = c.ip_new in
      let i = h.ips p in
      let h₁ = with_ip h p (record i { info = record i.info { ip = x.ip } }) in
      let i₁ = h₁.ips p in
      let h₂ = with_ip h₁ p (record i₁ { info = record i₁.info { type = x.type } }) in
      let i₂ = h₂.ips p in
      let h₃ = with_ip h₂ p (record i₂ { info = record i₂.info { s_count = x.s_count } }) in
      let linked : (h₃.ips c.ip_header).next_ip ≡ p = ground arith in
      let at₃ : AtIp c h₃ = record {
        new_positive = at.new_positive;
        new_low = at.new_low;
        header_positive = at.header_positive;
        header_low = at.header_low;
        apart = at.apart;
        linked = linked;
      } in
      let (h', e) = end_ip-EndsIp c h₃ x.validity at₃ in
      (
        h',
        rw (
          r.ip_line c h x.ip fits.ip,
          set_ip-ok p h at.new_positive at.new_low x.ip (l.ip_text fits.ip).short,
          r.type_line c h₁ x.type fits.type,
          set_type-ok p h₁ at.new_positive at.new_low x.type (l.type_text fits.type).short,
          r.s_count_line c h₂ x.s_count fits.s_count,
          set_s_count-ok p h₂ at.new_positive at.new_low x.s_count,
          r.validity_line c h₃ x.validity fits.validity,
          e.run,
        ),
        record {
          info = e.info ∙ ground arith;
          next_ip = e.next_ip;
          same = λ a ne low. e.same a ne low ∙ ground arith;
          nodes = e.nodes;
          brk = e.brk;
        },
      )

-- The chain from `ip_new` holds `xs`, and nothing older changed but that cell.
pub record ReadsIps (c : Cursor) (h : Heap) (xs : List Ip) (c' : Cursor) (h' : Heap) : Type 0 where
  pub chain : IpChain h'.ips h'.brk c.ip_new xs
  pub same : (a : Ptr) → a ≢ c.ip_new → a < h.brk → h'.ips a ≡ h.ips a
  pub nodes : h'.nodes ≡ h.nodes
  pub grows : h.brk ≤ h'.brk
  pub node_new : c'.node_new ≡ c.node_new
  pub prev : c'.prev ≡ c.prev

module _ {l : Limits} {step : Bytes → Cursor → Cmd Cursor} (r : LineReader l step) where
  -- After the last address the chain is cut in front of the fresh cell.
  read_ips_cons :
      (x : Ip) (xs : List Ip) (rest : List Bytes) (c : Cursor) (h : Heap)
      → AtIp c h
      → AllIpsFit l (x ∷ xs)
      → (c' : Cursor) × (h' : Heap) × (read_lines step (ips_lines (x ∷ xs) rest) c h
          ≡ read_lines step (codes "end_node" ∷ rest) c' h')
        × ReadsIps c h (x ∷ xs) c' h'
  read_ips_cons x [] rest c h at fits =
      let p = c.ip_new in
      let (h₁, run, e) = read_ip r x (ips_lines [] rest) c h at fits.0 in
      let c₁ = next_cursor c h in
      let h₂ = with_ip h₁ p (record (h₁.ips p) { next_ip = null }) in
      (
        c₁,
        h₂,
        run
            ∙ unfold read_lines in
              rw (r.ends_line c₁ h₁, set_next_ip-ok p h₁ at.new_positive (omega arith) null),
        record {
          chain = (at.new_positive, omega arith, ground arith, ground arith);
          same = λ a ne low. ground (arith, e.same a ne low);
          nodes = e.nodes;
          grows = omega arith;
          node_new = refl;
          prev = refl;
        },
      )
  read_ips_cons x (y ∷ ys) rest c h at fits =
      let p = c.ip_new in
      let (h₁, run, e) = read_ip r x (ips_lines (y ∷ ys) rest) c h at fits.0 in
      let c₁ = next_cursor c h in
      let at₁ : AtIp c₁ h₁ = record {
        new_positive = omega arith;
        new_low = omega arith;
        header_positive = at.new_positive;
        header_low = omega arith;
        apart = omega arith;
        linked = e.next_ip;
      } in
      let (c', h', run', e') = read_ips_cons y ys rest c₁ h₁ at₁ fits.1 in
      let kept : h'.ips p ≡ h₁.ips p = e'.same p (omega arith) (omega arith) in
      (
        c',
        h',
        run ∙ run',
        record {
          chain =
              IpChain-cons h'.ips h'.brk p h.brk x (y ∷ ys) at.new_positive (omega arith)
                (ap (λ (i : IpCell). i.info) kept ∙ e.info)
                (ap (λ (i : IpCell). i.next_ip) kept ∙ e.next_ip) e'.chain;
          same = λ a ne low. e'.same a (omega arith) (omega arith) ∙ e.same a ne low;
          nodes = e'.nodes ∙ e.nodes;
          grows = omega arith;
          node_new = e'.node_new;
          prev = e'.prev;
        },
      )

  pub read_ips :
      (xs : List Ip) (rest : List Bytes) (c : Cursor) (h : Heap)
      → xs ≢ []
      → AtIp c h
      → AllIpsFit l xs
      → (c' : Cursor) × (h' : Heap) × (read_lines step (ips_lines xs rest) c h
          ≡ read_lines step (codes "end_node" ∷ rest) c' h')
        × ReadsIps c h xs c' h'
  read_ips [] rest c h ne at fits = absurd (ne refl)
  read_ips (x ∷ xs) rest c h ne at fits = read_ips_cons x xs rest c h at fits
