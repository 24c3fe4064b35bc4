-- ===== src/CString/Prefix.antt =====
-- `startsWith` without its test of the lengths.
use vpnp2p.Prelude.{◌<◌, ◌≡◌, refl, false, [], ◌∷◌, arith, length}
use vpnp2p.CString.Defs.{Bytes, mem_eq, starts_with}

mem_eq_short : (pre s : Bytes) → length s < length pre → mem_eq pre s ≡ false
mem_eq_short [] s h = elim h [ ]
mem_eq_short (x ∷ pre) [] h = refl
mem_eq_short (x ∷ pre) (y ∷ s) h = rw (mem_eq_short pre s (omega arith)) (ground arith)

-- `startsWith` is the test of the bytes.
pub starts_with-mem_eq : (pre s : Bytes) → starts_with pre s ≡ mem_eq pre s
unfolding starts_with
starts_with-mem_eq pre s = ground (arith, mem_eq_short pre s)
