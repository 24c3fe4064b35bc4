-- ===== src/NodeInfo/Parse/FormatLines.antt =====
-- The lines of the format are lines that `split` and `fgets` find again.
use vpnp2p.Prelude.{
  ℕ, ◌≤◌, ◌<◌, ◌≡◌, refl, false, List, [], ◌∷◌, ◌++◌, ℤ, arith, length, length-append,
}
use vpnp2p.CString.Decimal.{decimal-no_newline}
use vpnp2p.CString.{Bytes, codes, decimal, has_newline}
use vpnp2p.NodeInfo.Lines.Laws.{IsLine, AllLines}
use vpnp2p.NodeInfo.Parse.LineReader.{IsText, Limits}
use vpnp2p.NodeInfo.Parse.ReadIps.{AllIpsFit}
use vpnp2p.NodeInfo.Parse.ReadNodes.{AllNodesFit}
use vpnp2p.NodeInfo.Print.Render.{ips_lines, node_lines}
use vpnp2p.NodeInfo.Values.{Ip, Node}

has_newline-append :
    (a b : Bytes) → has_newline a ≡ false → has_newline b ≡ false → has_newline (a ++ b) ≡ false
has_newline-append [] b ha hb = hb
has_newline-append (c ∷ a) b ha hb = ground (arith, has_newline-append a b)

-- A label of at most 12 bytes with a short text behind it.
label-IsLine :
    (size c : ℕ) (label s : Bytes)
    → 40 ≤ size
    → length label < 12
    → has_newline (c ∷ label) ≡ false
    → length s < 20
    → has_newline s ≡ false
    → IsLine size (c ∷ (label ++ s))
label-IsLine size c label s room short no_newline short_s no_newline_s = record {
  ne_nil = λ e. cc;
  no_newline = has_newline-append (c ∷ label) s no_newline no_newline_s;
  short = simp length-append (omega arith);
}

module _ (l : Limits) (size : ℕ) (room : 40 ≤ size) where
  int-IsLine :
      (c : ℕ) (label : Bytes) (z : ℤ)
      → length label < 12
      → has_newline (c ∷ label) ≡ false
      → l.IntFits z
      → IsLine size (c ∷ (label ++ decimal z))
  int-IsLine c label z short no_newline fits =
      label-IsLine size c label (decimal z) room short no_newline (omega (arith, l.length-int fits))
        (decimal-no_newline z)

  text-IsLine :
      (c : ℕ) (label s : Bytes)
      → length label < 12
      → has_newline (c ∷ label) ≡ false
      → IsText 20 s
      → IsLine size (c ∷ (label ++ s))
  text-IsLine c label s short no_newline fits =
      label-IsLine size c label s room short no_newline fits.short fits.no_newline

  ips_lines-AllLines :
      (xs : List Ip) (rest : List Bytes)
      → AllIpsFit l xs
      → AllLines size rest
      → AllLines size (ips_lines xs rest)
  ips_lines-AllLines [] rest fits all =
      let ends : IsLine size (codes "ip_list_ends") = record {
        ne_nil = λ e. cc;
        no_newline = refl;
        short = omega arith;
      } in
      let end : IsLine size (codes "end_node") = record {
        ne_nil = λ e. cc;
        no_newline = refl;
        short = omega arith;
      } in
      (ends, (end, all))
  ips_lines-AllLines (x ∷ xs) rest (f, fits) all =
      let ip = text-IsLine b'i' (codes "p: ") x.ip (omega arith) refl (l.ip_text f.ip) in
      let type =
        text-IsLine b'i' (codes "p_type: ") x.type (omega arith) refl (l.type_text f.type) in
      let count = int-IsLine b's' (codes "_count: ") x.s_count (omega arith) refl f.s_count in
      let valid = int-IsLine b'v' (codes "alidity: ") x.validity (omega arith) refl f.validity in
      (ip, (type, (count, (valid, ips_lines-AllLines xs rest fits all))))

  pub node_lines-AllLines : (ns : List Node) → AllNodesFit l ns → AllLines size (node_lines ns)
  node_lines-AllLines [] fits = tt
  node_lines-AllLines (n ∷ ns) (f, fits) =
      let node : IsLine size (codes "NODE") = record {
        ne_nil = λ e. cc;
        no_newline = refl;
        short = omega arith;
      } in
      let id = int-IsLine b'i' (codes "d: ") n.id (omega arith) refl f.id in
      let count =
        int-IsLine b'n' (codes "ode_count: ") n.node_count (omega arith) refl f.node_count in
      let reliable = int-IsLine b'r' (codes "eliable: ") n.reliable (omega arith) refl f.reliable in
      let start : IsLine size (codes "ip_list") = record {
        ne_nil = λ e. cc;
        no_newline = refl;
        short = omega arith;
      } in
      let ips = ips_lines-AllLines n.ip_list _ f.ip_list (node_lines-AllLines ns fits) in
      (node, (id, (count, (reliable, (start, ips)))))
