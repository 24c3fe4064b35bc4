-- ===== src/NodeInfo/Parse/FileLines.antt =====
-- `file2struct` reads the lines of the format, each with the newline that `fgets` leaves.
use vpnp2p.Prelude.{◌≡◌, refl, [], ◌∷◌, ◌++◌, true, false, ℤ, Bool, ◌||◌, ◌==◌, arith}
use vpnp2p.CString.Decimal.{atoi-decimal, length-decimal_int}
use vpnp2p.CString.Prefix.{starts_with-mem_eq}
use vpnp2p.CString.{Bytes, codes, decimal, has_newline, is_int, strip}
use vpnp2p.NodeInfo.Heap.{Cmd, Heap, ok}
use vpnp2p.NodeInfo.Lines.Laws.{with_newline, chop-with_newline}
use vpnp2p.NodeInfo.Parse.Defs.{Cursor, read_int, file_step}
use vpnp2p.NodeInfo.Parse.LineReader.{IsText, Limits, LineReader}

abbrev pub has_tab : Bytes → Bool
has_tab [] = false
has_tab (c ∷ s) = c == b'\t' || has_tab s

-- `strip` would drop a tab.
pub record IsTabless (s : Bytes) : Type 0 where
  pub text : IsText 20 s
  pub no_tab : has_tab s ≡ false

-- Every `int`, and texts of 19 bytes, are read whole.
abbrev pub file_limits : Limits
file_limits = record {
  IntFits = λ z. is_int z ≡ true;
  IpFits = IsTabless;
  TypeFits = IsTabless;
  length-int = λ {z} h. length-decimal_int z h;
  ip_text = λ h. h.text;
  type_text = λ h. h.text;
}

read_int-decimal : (z : ℤ) (h : Heap) → is_int z ≡ true → read_int (decimal z) h ≡ ok z h
unfolding read_int
read_int-decimal z h fits = rw (atoi-decimal, fits)

strip_lem : (s : Bytes) → has_newline s ≡ false → has_tab s ≡ false → strip s ≡ s
unfolding strip
strip_lem [] n t = refl
strip_lem (c ∷ s) n t = ground (arith, strip_lem s)

abbrev pub file_line_step : Bytes → Cursor → Cmd Cursor
file_line_step line = file_step (with_newline line)

-- Each line of the format is read by `file2struct` as what it says.
pub file_step-LineReader : LineReader file_limits file_line_step
unfolding file_step
file_step-LineReader = record {
  node_line = λ c h. rw (chop-with_newline (codes "NODE") h) (simp starts_with-mem_eq);
  id_line = λ c h z fits.
      rw (chop-with_newline (codes "id: " ++ decimal z) h)
        (simp starts_with-mem_eq (rw (read_int-decimal z h fits)));
  node_count_line = λ c h z fits.
      rw (chop-with_newline (codes "node_count: " ++ decimal z) h)
        (simp starts_with-mem_eq (rw (read_int-decimal z h fits)));
  reliable_line = λ c h z fits.
      rw (chop-with_newline (codes "reliable: " ++ decimal z) h)
        (simp starts_with-mem_eq (rw (read_int-decimal z h fits)));
  ip_list_line = λ c h. rw (chop-with_newline (codes "ip_list") h) (simp starts_with-mem_eq);
  ip_line = λ c h s fits.
      rw (chop-with_newline (codes "ip: " ++ s) h)
        (simp starts_with-mem_eq (rw (strip_lem s fits.text.no_newline fits.no_tab)));
  type_line = λ c h s fits.
      rw (chop-with_newline (codes "ip_type: " ++ s) h)
        (simp starts_with-mem_eq (rw (strip_lem s fits.text.no_newline fits.no_tab)));
  s_count_line = λ c h z fits.
      rw (chop-with_newline (codes "s_count: " ++ decimal z) h)
        (simp starts_with-mem_eq (rw (read_int-decimal z h fits)));
  validity_line = λ c h z fits.
      rw (chop-with_newline (codes "validity: " ++ decimal z) h)
        (simp starts_with-mem_eq (rw (read_int-decimal z h fits)));
  ends_line = λ c h. rw (chop-with_newline (codes "ip_list_ends") h) (simp starts_with-mem_eq);
  end_line = λ c h. rw (chop-with_newline (codes "end_node") h) (simp starts_with-mem_eq);
}
