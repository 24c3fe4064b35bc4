-- ===== src/CString/Defs.antt =====
-- C strings as lists of bytes; `startsWith` and `strip` of NodeInfo/node_info.c.
use Prim.Native.Char.{code}
use Prim.Native.String.{String}
use vpnp2p.Prelude.{
  ℕ, zero, suc, ◌+◌, ◌-◌, ◌*◌, ◌/◌, ◌%◌, ◌^◌, Bool, true, false, ◌&&◌, ◌||◌, not, List, [], ◌∷◌,
  ◌++◌, ℤ, pos, negsuc, ltb, leb, ◌==◌, if◌then◌else◌, length,
}

abbrev pub Bytes : Type 0
Bytes = List ℕ

-- The bytes of an ASCII literal.
abbrev pub codes : String → Bytes
codes String.[] = []
codes (String.◌∷◌ c s) = code c ∷ codes s

-- `strcmp(a, b) == 0`
unfoldable pub str_eq : Bytes → Bytes → Bool
str_eq [] [] = true
str_eq (x ∷ xs) (y ∷ ys) = x == y && str_eq xs ys
str_eq _ _ = false

-- `memcmp(a, b, strlen(a)) == 0`, for `b` at least as long as `a`
abbrev pub mem_eq : Bytes → Bytes → Bool
mem_eq [] ys = true
mem_eq (x ∷ xs) [] = false
mem_eq (x ∷ xs) (y ∷ ys) = x == y && mem_eq xs ys

unfoldable pub starts_with : Bytes → Bytes → Bool
starts_with pre str = if ltb (length str) (length pre) then false else mem_eq pre str

-- The copy of a string with no tab and no newline in it.
unfoldable pub strip : Bytes → Bytes
strip [] = []
strip (c ∷ s) =
    let rest = strip s in if not (c == b'\t') && not (c == b'\n') then c ∷ rest else rest

-- What `%d` prints for a number that is not negative, on fuel: the digits before the last, and it.
unfoldable pub digits_fuel : ℕ → ℕ → Bytes
digits_fuel zero n = []
digits_fuel (suc f) n =
    let before = digits_fuel f (n / 10) in
    if ltb n 10 then (48 + n) ∷ [] else before ++ ((48 + n % 10) ∷ [])

unfoldable pub decimal : ℤ → Bytes
unfolding digits_fuel
decimal (pos n) = digits_fuel (n + 1) n
decimal (negsuc n) = b'-' ∷ digits_fuel (n + 2) (n + 1)

abbrev pub is_digit : ℕ → Bool
is_digit c = leb 48 c && leb c 57

-- The white space of `isspace`.
abbrev pub is_space : ℕ → Bool
is_space c = c == 32 || (leb 9 c && leb c 13)

-- The value of the leading digits, from the value of those read before.
unfoldable pub digits_value : ℕ → Bytes → ℕ
digits_value acc [] = acc
digits_value acc (c ∷ s) =
    let more = digits_value (acc * 10 + (c - 48)) s in if is_digit c then more else acc

-- `-n`
abbrev pub negate : ℕ → ℤ
negate zero = pos 0
negate (suc n) = negsuc n

-- `atoi` behind the white space, as an integer of any size.
unfoldable pub atoi_signed : Bytes → ℤ
unfolding digits_value
atoi_signed [] = pos 0
atoi_signed (c ∷ s) =
    if c == b'-'
    then negate (digits_value 0 s)
    else if c == b'+'
    then pos (digits_value 0 s)
    else pos (digits_value 0 (c ∷ s))

unfoldable pub atoi : Bytes → ℤ
unfolding atoi_signed
atoi [] = pos 0
atoi (c ∷ s) = let rest = atoi s in if is_space c then rest else atoi_signed (c ∷ s)

-- Whether `atoi` ends its reading inside the bytes, by a byte that is not part of the number.
unfoldable pub digits_end : Bytes → Bool
digits_end [] = false
digits_end (c ∷ s) = let rest = digits_end s in if is_digit c then rest else true

unfoldable pub atoi_ends : Bytes → Bool
unfolding digits_end
atoi_ends [] = false
atoi_ends (c ∷ s) =
    let rest = atoi_ends s in
    if is_space c then rest else if c == b'-' || c == b'+' then digits_end s else digits_end (c ∷ s)

-- The values of an `int`.
unfoldable pub is_int : ℤ → Bool
is_int (pos n) = ltb n (2 ^ 31)
is_int (negsuc n) = ltb n (2 ^ 31)

abbrev pub has_newline : Bytes → Bool
has_newline [] = false
has_newline (c ∷ s) = c == b'\n' || has_newline s
