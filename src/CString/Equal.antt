-- ===== src/CString/Equal.antt =====
-- `strcmp` decides equality of strings.
use vpnp2p.Prelude.{◌≡◌, ◌≢◌, ◌↔◌, refl, true, false, ◌∷◌, arith}
use vpnp2p.CString.Defs.{Bytes, str_eq}

pub str_eq_iff : (a b : Bytes) → (str_eq a b ≡ true) ↔ (a ≡ b)
unfolding str_eq
str_eq_iff (x ∷ a) (y ∷ b) = ground (arith, str_eq_iff a b)
str_eq_iff _ _ = ground arith

pub str_eq_refl : (a : Bytes) → str_eq a a ≡ true
str_eq_refl a = (str_eq_iff a a).1 refl

pub str_eq_ne : (a b : Bytes) → a ≢ b → str_eq a b ≡ false
str_eq_ne a b h = ground (arith, str_eq_iff a b)
