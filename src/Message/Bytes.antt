-- ===== src/Message/Bytes.antt =====
-- Strings in arrays, and the size in network order.
use vpnp2p.Prelude.{
  ℕ, ◌+◌, ◌*◌, ◌/◌, ◌%◌, ◌^◌, ◌<◌, ◌≡◌, refl, ap, Bool, false, none, some, [], ◌∷◌, ◌++◌, ◌||◌, pos,
  arith, ◌==◌, length, take,
}
use vpnp2p.CString.{Bytes}
use vpnp2p.Message.Defs.{done, c_string, htonl_bytes, ntohl_int}

-- A NUL among the bytes.
abbrev pub has_nul : Bytes → Bool
has_nul [] = false
has_nul (c ∷ s) = c == 0 || has_nul s

pub c_string-append_nul : (s rest : Bytes) → has_nul s ≡ false → c_string (s ++ 0 ∷ rest) ≡ some s
unfolding c_string
c_string-append_nul [] rest e = refl
c_string-append_nul (c ∷ s) rest e = ground (arith, c_string-append_nul s rest)

pub c_string-no_nul : (s : Bytes) → has_nul s ≡ false → c_string s ≡ none
unfolding c_string
c_string-no_nul [] e = refl
c_string-no_nul (c ∷ s) e = ground (arith, c_string-no_nul s)

pub take-length : (s rest : Bytes) → take (length s) (s ++ rest) ≡ s
take-length [] rest = refl
take-length (c ∷ s) rest = ap (◌∷◌ c) (take-length s rest)

pub take-all : (s : Bytes) → take (length s) s ≡ s
take-all [] = refl
take-all (c ∷ s) = ap (◌∷◌ c) (take-all s)

pub ntohl_int-htonl_bytes : (n : ℕ) → n < 2 ^ 31 → ntohl_int (htonl_bytes n) ≡ done (pos n)
unfolding ntohl_int htonl_bytes
ntohl_int-htonl_bytes n low =
    let m =
      (((n / 2 ^ 24) % 256 * 256 + (n / 2 ^ 16) % 256) * 256 + (n / 2 ^ 8) % 256) * 256 + n % 256 in
    let q : m ≡ n = omega arith in rw q (ground arith)

-- A string that an array holds is shorter than the array, and without a NUL.
pub c_string-length : (a t : Bytes) → c_string a ≡ some t → length t < length a
unfolding c_string
c_string-length [] t e = cc
c_string-length (c ∷ a) [] e = omega arith
c_string-length (c ∷ a) (d ∷ t) e = ground (arith, c_string-length a t)

pub c_string-has_nul : (a t : Bytes) → c_string a ≡ some t → has_nul t ≡ false
unfolding c_string
c_string-has_nul [] t e = cc
c_string-has_nul (c ∷ a) [] e = refl
c_string-has_nul (c ∷ a) (d ∷ t) e = ground (arith, c_string-has_nul a t)
