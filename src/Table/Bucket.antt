-- ===== src/Table/Bucket.antt =====
-- The loops of NodeInfo/table.c along one bucket.
use vpnp2p.Prelude.{
  ℕ, ◌+◌, ◌≡◌, refl, sym, ◌∙◌, true, false, none, some, List, [], ◌∷◌, ℤ, arith, if◌then◌else◌,
  length, Bool-cases, inl, inr,
}
use vpnp2p.Table.Defs.{Binding, equal, find, assign, unlink}

-- What the table relies on: `cmp` tells the keys of an equivalence apart, and `hash` respects it.
pub record KeyLaws (cmp : ℕ → ℕ → ℤ) (hash : ℕ → ℕ) : Type 0 where
  pub refl : (x : ℕ) → equal cmp x x ≡ true
  pub sym : (x y : ℕ) → equal cmp x y ≡ true → equal cmp y x ≡ true
  pub trans : (x y z : ℕ) → equal cmp x y ≡ true → equal cmp y z ≡ true → equal cmp x z ≡ true
  pub same_hash : (x y : ℕ) → equal cmp x y ≡ true → hash x ≡ hash y

-- No two bindings have equal keys.
abbrev pub DistinctKeys : (ℕ → ℕ → ℤ) → List Binding → Type 0
DistinctKeys cmp [] = Unit {0}
DistinctKeys cmp (p ∷ ps) = (find cmp p.key ps ≡ none) × DistinctKeys cmp ps

find-assign-none :
    (cmp : ℕ → ℕ → ℤ) (x y v : ℕ) (ps : List Binding)
    → find cmp y ps ≡ none
    → find cmp y (assign cmp x v ps) ≡ none
unfolding find assign
find-assign-none cmp x y v [] e = e
find-assign-none cmp x y v (p ∷ ps) e = ground (arith, find-assign-none cmp x y v ps)

module _ {cmp : ℕ → ℕ → ℤ} {hash : ℕ → ℕ} (laws : KeyLaws cmp hash) where
  -- Equal keys are found alike, in tests and in the search.
  equal-left : (x y z : ℕ) → equal cmp x y ≡ true → equal cmp x z ≡ equal cmp y z
  equal-left x y z e =
      ground (arith, laws.sym x y e, laws.trans x y z e, laws.trans y x z (laws.sym x y e))

  pub find-equal :
      (x y : ℕ) (ps : List Binding) → equal cmp x y ≡ true → find cmp x ps ≡ find cmp y ps
  unfolding find
  find-equal x y [] e = refl
  find-equal x y (p ∷ ps) e = rw (equal-left x y p.key e, find-equal x y ps e) refl

  pub equal_comm : (x y : ℕ) → equal cmp x y ≡ equal cmp y x
  equal_comm x y = ground (arith, laws.sym x y, laws.sym y x)

  -- A key that equals `x` is equal to what `x` is equal to.
  pub equal-right : (x y z : ℕ) → equal cmp x z ≡ true → equal cmp y z ≡ equal cmp y x
  equal-right x y z e = equal_comm y z ∙ equal-left z x y (laws.sym x z e) ∙ equal_comm x y

  pub equal-apart :
      (x y z : ℕ) → equal cmp x z ≡ false → equal cmp y z ≡ true → equal cmp y x ≡ false
  equal-apart x y z n e = ground (arith, laws.trans x y z, laws.sym y x)

  pub find-assign :
      (x y v w : ℕ) (ps : List Binding)
      → find cmp x ps ≡ some w
      → find cmp y (assign cmp x v ps) ≡ (if equal cmp y x then some v else find cmp y ps)
  unfolding find assign
  find-assign x y v w [] e = cc
  find-assign x y v w (p ∷ ps) e = elim (Bool-cases (equal cmp x p.key)) [
    | inl q ↦ rw (q, equal-right x y p.key q) (ground arith)
    | inr q ↦
        let rest = find-assign x y v w ps (ground arith) in
        elim (Bool-cases (equal cmp y p.key)) [
          | inl r ↦ rw (q, r, equal-apart x y p.key q r) refl
          | inr r ↦ rw (q, r, rest) refl
        ]
  ]

  pub find-unlink :
      (x y : ℕ) (ps : List Binding)
      → DistinctKeys cmp ps
      → find cmp y (unlink cmp x ps) ≡ (if equal cmp y x then none else find cmp y ps)
  unfolding find unlink
  find-unlink x y [] d = ground arith
  find-unlink x y (p ∷ ps) (new, d) = elim (Bool-cases (equal cmp x p.key)) [
    | inl q ↦ elim (Bool-cases (equal cmp y p.key)) [
      | inl r ↦ rw (q, sym (equal-right x y p.key q), r, find-equal y p.key ps r, new) refl
      | inr r ↦ rw (q, sym (equal-right x y p.key q), r) refl
    ]
    | inr q ↦ elim (Bool-cases (equal cmp y p.key)) [
      | inl r ↦ rw (q, r, equal-apart x y p.key q r) refl
      | inr r ↦ rw (q, r, find-unlink x y ps d) refl
    ]
  ]

  pub assign-DistinctKeys :
      (x v : ℕ) (ps : List Binding) → DistinctKeys cmp ps → DistinctKeys cmp (assign cmp x v ps)
  unfolding assign
  assign-DistinctKeys x v [] d = tt
  assign-DistinctKeys x v (p ∷ ps) (new, d) = elim (Bool-cases (equal cmp x p.key)) [
    | inl q ↦ rw q (new, d)
    | inr q ↦ rw q (find-assign-none cmp x p.key v ps new, assign-DistinctKeys x v ps d)
  ]

  pub unlink-DistinctKeys :
      (x : ℕ) (ps : List Binding) → DistinctKeys cmp ps → DistinctKeys cmp (unlink cmp x ps)
  unfolding unlink
  unlink-DistinctKeys x [] d = tt
  unlink-DistinctKeys x (p ∷ ps) (new, d) = elim (Bool-cases (equal cmp x p.key)) [
    | inl q ↦ rw q d
    | inr q ↦
        let lost = find-unlink x p.key ps d in
        rw q (lost ∙ rw new (ground arith), unlink-DistinctKeys x ps d)
  ]

pub length-assign :
    (cmp : ℕ → ℕ → ℤ) (x v : ℕ) (ps : List Binding) → length (assign cmp x v ps) ≡ length ps
unfolding assign
length-assign cmp x v [] = refl
length-assign cmp x v (p ∷ ps) = ground (arith, length-assign cmp x v ps)

pub length-unlink :
    (cmp : ℕ → ℕ → ℤ) (x v : ℕ) (ps : List Binding)
    → find cmp x ps ≡ some v
    → length (unlink cmp x ps) + 1 ≡ length ps
unfolding find unlink
length-unlink cmp x v [] e = cc
length-unlink cmp x v (p ∷ ps) e = elim (Bool-cases (equal cmp x p.key)) [
  | inl q ↦ rw q (omega arith)
  | inr q ↦ rw q (omega (arith, length-unlink cmp x v ps (ground arith)))
]

-- Bindings that satisfy a predicate of their key still do.
module _ (cmp : ℕ → ℕ → ℤ) (At : ℕ → Type 0) where
  abbrev pub AllKeys : List Binding → Type 0
  AllKeys [] = Unit {0}
  AllKeys (p ∷ ps) = At p.key × AllKeys ps

  pub assign-AllKeys : (x v : ℕ) (ps : List Binding) → AllKeys ps → AllKeys (assign cmp x v ps)
  unfolding assign
  assign-AllKeys x v [] a = tt
  assign-AllKeys x v (p ∷ ps) (at, a) = elim (Bool-cases (equal cmp x p.key)) [
    | inl q ↦ rw q (at, a)
    | inr q ↦ rw q (at, assign-AllKeys x v ps a)
  ]

  pub unlink-AllKeys : (x : ℕ) (ps : List Binding) → AllKeys ps → AllKeys (unlink cmp x ps)
  unfolding unlink
  unlink-AllKeys x [] a = tt
  unlink-AllKeys x (p ∷ ps) (at, a) = elim (Bool-cases (equal cmp x p.key)) [
    | inl q ↦ rw q a
    | inr q ↦ rw q (at, unlink-AllKeys x ps a)
  ]
