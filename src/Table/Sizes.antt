-- ===== src/Table/Sizes.antt =====
-- The size that `Table_new` of NodeInfo/table.c chooses, and the table that it makes.
use vpnp2p.Prelude.{
  ℕ, zero, suc, ◌≤◌, ◌<◌, ◌≡◌, refl, ap, Option, none, List, [], ◌∷◌, ℤ, pos, arith, ◌⊎◌, inl, inr,
  replicate, length-replicate, get_or, ltb, ltb→lt, Bool-cases, ◌^◌,
}
use vpnp2p.Table.Bucket.{KeyLaws}
use vpnp2p.Table.Defs.{
  Table, Outcome, ◌>>=◌, done, assertion_failed, undefined, bucket, index, find, or_default, primes,
  choose_size, Table_new, cmpatom, hashatom,
}
use vpnp2p.Table.WellFormed.{total, WellFormed, lookup}

-- The default functions compare and hash pointers.
pub atom-KeyLaws : KeyLaws cmpatom hashatom
unfolding cmpatom hashatom
atom-KeyLaws = record {
  refl = λ x. ground arith;
  sym = λ x y e. ground arith;
  trans = λ x y z e f. ground arith;
  same_hash = λ x y e. let q : x ≡ y = ground arith in ap (λ k. hashatom k) q;
}

-- What `choose_size` finds in a list of bounds that ends with one that is large enough.
pub record ChosenSize (hint size : ℕ) : Type 0 where
  pub smallest : 509 ≤ size
  pub largest : size ≤ 65521
  pub below_hint : (size ≡ 509) ⊎ (size < hint)

-- Sizes within the bounds, up to one that is large enough.
abbrev Covers : ℕ → List ℕ → Type 0
Covers hint [] = ⊥
Covers hint (p ∷ ps) = (hint ≤ p) ⊎ ((509 ≤ p) × (p ≤ 65521) × Covers hint ps)

choose_size-Covers :
    (hint before : ℕ) (ps : List ℕ)
    → Covers hint ps
    → ChosenSize hint before
    → (size : ℕ) × (choose_size hint before ps ≡ done size) × ChosenSize hint size
unfolding choose_size
choose_size-Covers hint before [] c s = elim c [ ]
choose_size-Covers hint before (p ∷ ps) c s = elim (Bool-cases (ltb p hint)) [
  | inl q ↦ elim c [
    | inl le ↦ ground (arith, ltb→lt p hint q)
    | inr (ge, le, rest) ↦
        let (size, run, t) =
          choose_size-Covers hint p ps rest
            (record { smallest = ge; largest = le; below_hint = inr (ground arith) }) in
        (size, rw q run, t)
  ]
  | inr q ↦ (before, rw q refl, s)
]

primes-Covers : (hint : ℕ) → hint < 2 ^ 31 → Covers hint primes
primes-Covers hint small = omega arith

get_or-replicate {ℓ} : {A : Type ℓ} (n i : ℕ) (a : A) → get_or (replicate n a) i a ≡ a
get_or-replicate zero i a = refl
get_or-replicate (suc n) zero a = refl
get_or-replicate (suc n) (suc i) a = get_or-replicate n i a

total-replicate_nil : (n : ℕ) → total (replicate n []) ≡ 0
total-replicate_nil zero = refl
total-replicate_nil (suc n) = omega (arith, total-replicate_nil n)

-- For a hint from 0 to `INT_MAX`, `Table_new` reads `primes` within its bounds and makes a
-- well-formed table without a binding, with the functions given or their defaults. Its size is
-- 509, or larger, at most 65521 and below the hint.
pub Table_new-WellFormed :
    (hint : ℕ) (cmp : Option (ℕ → ℕ → ℤ)) (hash : Option (ℕ → ℕ))
    → hint < 2 ^ 31
    → (t : Table) × (Table_new (pos hint) cmp hash ≡ done t)
      × WellFormed t
      × ChosenSize hint t.size
      × (t.cmp ≡ or_default cmp cmpatom)
      × (t.hash ≡ or_default hash hashatom)
      × ((key : ℕ) → lookup t key ≡ none)
unfolding Table_new lookup find
Table_new-WellFormed hint cmp hash small =
    let (size, run, s) =
      choose_size-Covers hint 509 primes (primes-Covers hint small)
        (record { smallest = omega arith; largest = omega arith; below_hint = inl refl }) in
    let t : Table = record {
      size = size;
      cmp = or_default cmp cmpatom;
      hash = or_default hash hashatom;
      length = pos 0;
      timestamp = 0;
      buckets = replicate size [];
    } in
    let empty : (i : ℕ) → bucket t i ≡ [] = λ i. get_or-replicate size i [] in
    (
      t,
      rw run refl,
      record {
        size_positive = omega arith;
        size = length-replicate size [];
        distinct = λ i low. rw (empty i) tt;
        placed = λ i low. rw (empty i) tt;
        length = rw (total-replicate_nil size) refl;
      },
      s,
      refl,
      refl,
      λ key. rw (empty (index t key)) refl,
    )

length-sized :
    (size : Outcome ℕ) (cmp : ℕ → ℕ → ℤ) (hash : ℕ → ℕ) (t : Table)
    → (size >>= λ n. done (record {
      size = n;
      cmp = cmp;
      hash = hash;
      length = pos 0;
      timestamp = 0;
      buckets = replicate n [];
    }))
      ≡ done t
    → t.length ≡ pos 0
length-sized (done n) cmp hash t e = ground arith
length-sized assertion_failed cmp hash t e = cc
length-sized undefined cmp hash t e = cc

pub Table_new-length :
    (hint : ℕ) (cmp : Option (ℕ → ℕ → ℤ)) (hash : Option (ℕ → ℕ)) (t : Table)
    → Table_new (pos hint) cmp hash ≡ done t
    → t.length ≡ pos 0
unfolding Table_new
Table_new-length hint cmp hash t e =
    length-sized (choose_size hint 509 primes) (or_default cmp cmpatom) (or_default hash hashatom) t
      e
