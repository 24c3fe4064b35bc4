-- ===== src/NodeInfo/Parse/BufLines.antt =====
-- `convert_buf_to_node` reads the lines of the format.
use vpnp2p.Prelude.{ℕ, ◌≡◌, refl, ◌<◌, [], ◌∷◌, ◌++◌, ℤ, length, length-append, drop, arith}
use vpnp2p.CString.Decimal.{atoi-decimal, IsShort, length-decimal, IsShort-is_int}
use vpnp2p.CString.Prefix.{starts_with-mem_eq}
use vpnp2p.CString.{Bytes, codes, decimal}
use vpnp2p.NodeInfo.Heap.{Heap, ok}
use vpnp2p.NodeInfo.Parse.Defs.{int_field, text_field, buf_step}
use vpnp2p.NodeInfo.Parse.LineReader.{IsText, Limits, LineReader}

-- Numbers of nine characters, addresses of 19 and types of 9 are read whole.
abbrev pub buf_limits : Limits
buf_limits = record {
  IntFits = IsShort;
  IpFits = IsText 20;
  TypeFits = IsText 10;
  length-int = λ {z} h. omega (arith, length-decimal z h);
  ip_text = λ h. h;
  type_text = λ h. record { short = omega arith; no_newline = h.no_newline };
}

drop-prefix : (pre s : Bytes) → drop (length pre) (pre ++ s) ≡ s
drop-prefix [] s = refl
drop-prefix (c ∷ pre) s = drop-prefix pre s

-- The number behind a label.
int_field-label :
    (label : Bytes) (z : ℤ) (h : Heap)
    → IsShort z
    → int_field (length label) (label ++ decimal z) h ≡ ok z h
unfolding int_field
int_field-label label z h fits =
    rw (drop-prefix label (decimal z), length-append, atoi-decimal, IsShort-is_int z fits)
      (ground (arith, length-decimal z fits))

-- The text behind a label.
text_field-label :
    (n : ℕ) (label s : Bytes) (h : Heap)
    → length s < n
    → text_field n (length label) (label ++ s) h ≡ ok s h
unfolding text_field
text_field-label n label s h fits = rw (drop-prefix label s, length-append) (ground arith)

-- Each line of the format is read by `convert_buf_to_node` as what it says.
pub buf_step-LineReader : LineReader buf_limits buf_step
unfolding buf_step
buf_step-LineReader = record {
  node_line = λ c h. simp starts_with-mem_eq;
  id_line = λ c h z fits. simp starts_with-mem_eq (rw (int_field-label (codes "id: ") z h fits));
  node_count_line =
      λ c h z fits. simp starts_with-mem_eq (rw (int_field-label (codes "node_count: ") z h fits));
  reliable_line =
      λ c h z fits. simp starts_with-mem_eq (rw (int_field-label (codes "reliable: ") z h fits));
  ip_list_line = λ c h. simp starts_with-mem_eq;
  ip_line = λ c h s fits.
      simp starts_with-mem_eq (rw (text_field-label 20 (codes "ip: ") s h fits.short));
  type_line = λ c h s fits.
      simp starts_with-mem_eq (rw (text_field-label 10 (codes "ip_type: ") s h fits.short));
  s_count_line =
      λ c h z fits. simp starts_with-mem_eq (rw (int_field-label (codes "s_count: ") z h fits));
  validity_line =
      λ c h z fits. simp starts_with-mem_eq (rw (int_field-label (codes "validity: ") z h fits));
  ends_line = λ c h. simp starts_with-mem_eq;
  end_line = λ c h. simp starts_with-mem_eq;
}
