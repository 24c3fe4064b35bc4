-- ===== src/CString/Decimal.antt =====
-- Printing an `int` by `%d` and reading it back by `atoi`.
use mathlib.Core.List.{concat-ne-nil}
use native.Mathlib.Nat.{pow-suc}
use native.Mathlib.Numerals.{add-one}
use vpnp2p.Prelude.{
  ℕ, zero, suc, ◌+◌, ◌-◌, ◌*◌, ◌/◌, ◌%◌, ◌^◌, ◌≤◌, ◌<◌, ◌≡◌, ◌≢◌, refl, sym, ap, ◌∙◌, inl, inr,
  true, false, [], ◌∷◌, ◌++◌, ℤ, pos, negsuc, arith, ltb, lt→ltb, Bool-cases, length, length-append,
}
use vpnp2p.CString.Defs.{
  Bytes, digits_fuel, decimal, is_digit, digits_value, negate, atoi, is_int, has_newline,
}

abbrev IsDigits : Bytes → Type 0
IsDigits [] = Unit
IsDigits (c ∷ s) = (is_digit c ≡ true) × IsDigits s

IsDigits-append : (xs ys : Bytes) → IsDigits xs → IsDigits ys → IsDigits (xs ++ ys)
IsDigits-append [] ys hx hy = hy
IsDigits-append (x ∷ xs) ys hx hy = (hx.0, IsDigits-append xs ys hx.1 hy)

digits_fuel-IsDigits : (f n : ℕ) → IsDigits (digits_fuel f n)
unfolding digits_fuel
digits_fuel-IsDigits zero n = tt
digits_fuel-IsDigits (suc f) n = elim (Bool-cases (ltb n 10)) [
  | inl h ↦ rw h (ground arith, tt)
  | inr h ↦ rw h (
      IsDigits-append (digits_fuel f (n / 10)) _ (digits_fuel-IsDigits f (n / 10))
        (ground arith, tt))
]

digits_fuel-ne-nil : (f n : ℕ) → n < f → digits_fuel f n ≢ []
unfolding digits_fuel
digits_fuel-ne-nil zero n h = elim h [ ]
digits_fuel-ne-nil (suc f) n h = elim (Bool-cases (ltb n 10)) [
  | inl e ↦ rw e (cc)
  | inr e ↦ rw e (concat-ne-nil (48 + n % 10) (digits_fuel f (n / 10)))
]

IsDigits-no_newline : (s : Bytes) → IsDigits s → has_newline s ≡ false
IsDigits-no_newline [] h = refl
IsDigits-no_newline (c ∷ s) h = rw (IsDigits-no_newline s h.1) (ground arith)

digits_value-append :
    (acc : ℕ) (xs : Bytes) (d : ℕ)
    → IsDigits xs
    → is_digit d ≡ true
    → digits_value acc (xs ++ d ∷ []) ≡ digits_value acc xs * 10 + (d - 48)
unfolding digits_value
digits_value-append acc [] d h e = rw e
digits_value-append acc (x ∷ xs) d h e =
    rw h.0 (digits_value-append (acc * 10 + (x - 48)) xs d h.1 e)

digits_value-digits_fuel : (f n : ℕ) → n < f → digits_value 0 (digits_fuel f n) ≡ n
unfolding digits_fuel
digits_value-digits_fuel zero n h = elim h [ ]
digits_value-digits_fuel (suc f) n h = elim (Bool-cases (ltb n 10)) [
  | inl e ↦ rw e (unfold digits_value in ground arith)
  | inr e ↦
      rw
        (
          e,
          digits_value-append 0 (digits_fuel f (n / 10)) (48 + n % 10)
              (digits_fuel-IsDigits f (n / 10)) (ground arith),
          digits_value-digits_fuel f (n / 10) (ground arith),
        )
        (omega arith)
]

-- A number below 10 ^ k has at most k digits.
pub length-digits_fuel : (f n k : ℕ) → n < f → n < 10 ^ k → 0 < k → length (digits_fuel f n) ≤ k
unfolding digits_fuel
length-digits_fuel zero n k h lt k_pos = elim h [ ]
length-digits_fuel (suc f) n zero h lt k_pos = elim k_pos [ ]
length-digits_fuel (suc f) n (suc zero) h lt k_pos = rw (lt→ltb n 10 lt) (omega arith)
length-digits_fuel (suc f) n (suc (suc k)) h lt k_pos = elim (Bool-cases (ltb n 10)) [
  | inl e ↦ rw e (omega arith)
  | inr e ↦
      let shorter : n < 10 ^ suc k * 10 = rw pow-suc at lt in
      rw (e, length-append)
        (omega
          (arith, length-digits_fuel f (n / 10) (suc k) (ground arith) (omega arith) (omega arith)))
]

digits_fuel-cons :
    (f n : ℕ) → n < f → (d : ℕ) × (ds : Bytes) × (digits_fuel f n ≡ d ∷ ds) × (is_digit d ≡ true)
digits_fuel-cons f n h = go (digits_fuel f n) refl (digits_fuel-IsDigits f n)
  where
    go :
        (s : Bytes)
        → digits_fuel f n ≡ s
        → IsDigits s
        → (d : ℕ) × (ds : Bytes) × (digits_fuel f n ≡ d ∷ ds) × (is_digit d ≡ true)
    go [] e ds = absurd (digits_fuel-ne-nil f n h e)
    go (d ∷ s) e ds = (d, s, e, ds.0)

atoi-digits : (d : ℕ) (s : Bytes) → is_digit d ≡ true → atoi (d ∷ s) ≡ pos (digits_value 0 (d ∷ s))
unfolding atoi
atoi-digits d s h = ground arith

-- `atoi` reads back what `%d` printed.
pub atoi-decimal : (z : ℤ) → atoi (decimal z) ≡ z
unfolding decimal
atoi-decimal (pos n) =
    let (d, ds, e, digit) = digits_fuel-cons (n + 1) n (omega arith) in
    rw e (atoi-digits d ds digit)
    ∙ ap pos (ap (digits_value 0) (sym e) ∙ digits_value-digits_fuel (n + 1) n (omega arith))
atoi-decimal (negsuc n) =
    unfold atoi in (ap negate (digits_value-digits_fuel (n + 2) (n + 1) (omega arith)) ∙ rw add-one)

-- The numbers that `%d` prints with nine characters at most: their text, with its NUL, fits the ten
-- bytes that the parser copies.
unfoldable pub IsShort : ℤ → Type 0
IsShort (pos n) = n < 10 ^ 9
IsShort (negsuc n) = n + 1 < 10 ^ 8

pub length-decimal : (z : ℤ) → IsShort z → length (decimal z) < 10
unfolding decimal IsShort
length-decimal (pos n) h =
    omega (arith, length-digits_fuel (n + 1) n 9 (omega arith) h (omega arith))
length-decimal (negsuc n) h =
    omega (arith, length-digits_fuel (n + 2) (n + 1) 8 (omega arith) h (omega arith))

pub length-decimal_int : (z : ℤ) → is_int z ≡ true → length (decimal z) < 12
unfolding decimal is_int
length-decimal_int (pos n) h =
    omega (arith, length-digits_fuel (n + 1) n 10 (omega arith) (ground arith) (omega arith))
length-decimal_int (negsuc n) h =
    omega (arith, length-digits_fuel (n + 2) (n + 1) 10 (omega arith) (ground arith) (omega arith))

pub IsShort-is_int : (z : ℤ) → IsShort z → is_int z ≡ true
unfolding is_int IsShort
IsShort-is_int (pos n) h = ground arith
IsShort-is_int (negsuc n) h = ground arith

-- No byte of a printed number is a newline.
pub decimal-no_newline : (z : ℤ) → has_newline (decimal z) ≡ false
unfolding decimal
decimal-no_newline (pos n) = IsDigits-no_newline _ (digits_fuel-IsDigits (n + 1) n)
decimal-no_newline (negsuc n) = IsDigits-no_newline _ (digits_fuel-IsDigits (n + 2) (n + 1))
