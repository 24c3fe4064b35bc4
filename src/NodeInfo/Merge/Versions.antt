-- ===== src/NodeInfo/Merge/Versions.antt =====
-- The versions of the nodes in a merged list, whatever the order of the lists.
use vpnp2p.Prelude.{
  ◌≡◌, refl, sym, ap, ◌∙◌, true, false, Option, none, some, List, [], ◌∷◌, ◌++◌, map, ℤ, pos,
  negsuc, eq_ℤ, ltb_ℤ, eq_ℤ_iff, arith, if◌then◌else◌, Bool-cases, inl, inr,
}
use mathlib.Core.Option as Option
use native.Mathlib.Decide.{ℕ_discrete}
use mathlib.Core.HLevel.{hedberg}
use mathlib.Core.Logic.{∥∥₁_elim}
use mathlib.Core.List.{Perm, Permᴰ}
use vpnp2p.NodeInfo.Merge.Spec.{
  newer, newest, has_id, unknown, merge, merge_all, newer-id, newest-id, has_id-map-newest,
}
use vpnp2p.NodeInfo.Values.{Node}

-- The larger of two numbers.
abbrev pub max_ℤ : ℤ → ℤ → ℤ
max_ℤ a b = if ltb_ℤ a b then b else a

abbrev pub latest : Option ℤ → Option ℤ → Option ℤ
latest none o = o
latest (some a) none = some a
latest (some a) (some b) = some (max_ℤ a b)

-- The largest count of a node with that id.
abbrev pub version : ℤ → List Node → Option ℤ
version z [] = none
version z (n ∷ ns) =
    let rest = version z ns in if eq_ℤ n.id z then latest (some n.node_count) rest else rest

max_ℤ_comm : (a b : ℤ) → max_ℤ a b ≡ max_ℤ b a
max_ℤ_comm (pos m) (pos n) = ground arith
max_ℤ_comm (pos m) (negsuc n) = ground arith
max_ℤ_comm (negsuc m) (pos n) = ground arith
max_ℤ_comm (negsuc m) (negsuc n) = ground arith

max_ℤ_assoc : (a b c : ℤ) → max_ℤ (max_ℤ a b) c ≡ max_ℤ a (max_ℤ b c)
max_ℤ_assoc a b c = ground arith

latest_comm : (o p : Option ℤ) → latest o p ≡ latest p o
latest_comm none none = refl
latest_comm none (some b) = refl
latest_comm (some a) none = refl
latest_comm (some a) (some b) = ap some (max_ℤ_comm a b)

latest_assoc : (o p q : Option ℤ) → latest (latest o p) q ≡ latest o (latest p q)
latest_assoc none p q = refl
latest_assoc (some a) none q = refl
latest_assoc (some a) (some b) none = refl
latest_assoc (some a) (some b) (some c) = ap some (max_ℤ_assoc a b c)

max_ℤ_idem : (a : ℤ) → max_ℤ a a ≡ a
max_ℤ_idem a = ground arith

latest_idem : (o : Option ℤ) → latest o o ≡ o
latest_idem none = refl
latest_idem (some a) = ap some (max_ℤ_idem a)

latest-none : (o : Option ℤ) → latest o none ≡ o
latest-none none = refl
latest-none (some a) = refl

-- Two parts that have met the same have met it once.
latest_share : (o p q : Option ℤ) → latest (latest o q) (latest p q) ≡ latest (latest o p) q
latest_share o p q =
    latest_assoc o q (latest p q)
    ∙ ap (latest o) (
        ap (latest q) (latest_comm p q)
        ∙ sym (latest_assoc q q p)
        ∙ ap (λ r. latest r p) (latest_idem q)
        ∙ latest_comm q p)
    ∙ sym (latest_assoc o p q)

eq_ℤ_sym : (a b : ℤ) → eq_ℤ a b ≡ eq_ℤ b a
eq_ℤ_sym (pos m) (pos n) = ground arith
eq_ℤ_sym (pos m) (negsuc n) = refl
eq_ℤ_sym (negsuc m) (pos n) = refl
eq_ℤ_sym (negsuc m) (negsuc n) = ground arith

newer-count :
    (n m : Node)
    → some (newer n m).node_count
      ≡ latest (some n.node_count) (if eq_ℤ m.id n.id then some m.node_count else none)
unfolding newer
newer-count n m = rw (eq_ℤ_sym m.id n.id) (elim (Bool-cases (eq_ℤ n.id m.id)) [
  | inr e ↦ rw e refl
  | inl e ↦ elim (Bool-cases (ltb_ℤ n.node_count m.node_count)) [
    | inl l ↦ rw (e, l) refl
    | inr l ↦ rw (e, l) refl
  ]
])

version-cons :
    (z : ℤ) (m : Node) (ms : List Node)
    → latest (if eq_ℤ m.id z then some m.node_count else none) (version z ms) ≡ version z (m ∷ ms)
version-cons z m ms = elim (Bool-cases (eq_ℤ m.id z)) [ inl e ↦ rw e refl | inr e ↦ rw e refl ]

newest-count :
    (ms : List Node) (n : Node)
    → some (newest ms n).node_count ≡ latest (some n.node_count) (version n.id ms)
unfolding newest
newest-count [] n = refl
newest-count (m ∷ ms) n =
    newest-count ms (newer n m)
    ∙ ap (λ z. latest (some (newer n m).node_count) (version z ms)) (newer-id n m)
    ∙ ap (λ o. latest o (version n.id ms)) (newer-count n m)
    ∙ latest_assoc (some n.node_count) (if eq_ℤ m.id n.id then some m.node_count else none)
        (version n.id ms)
    ∙ ap (latest (some n.node_count)) (version-cons n.id m ms)

latest_step : (o p q : Option ℤ) → latest o (latest p q) ≡ latest p (latest o q)
latest_step o p q =
    sym (latest_assoc o p q) ∙ ap (λ r. latest r q) (latest_comm o p) ∙ latest_assoc p o q

version-absent : (z : ℤ) (ns : List Node) → has_id z ns ≡ false → version z ns ≡ none
version-absent z [] e = refl
version-absent z (n ∷ ns) e =
    let k : eq_ℤ n.id z ≡ false = ground arith in rw k (version-absent z ns (ground arith))

-- The part of the merged list that the first list has.
version-known :
    (z : ℤ) (ms ns : List Node)
    → has_id z ns ≡ true
    → version z (map (newest ms) ns) ≡ latest (version z ns) (version z ms)
version-known z ms [] e = cc
version-known z ms (n ∷ ns) e = elim (Bool-cases (eq_ℤ n.id z)) [
  | inr k ↦ rw (newest-id ms n, k) (version-known z ms ns (ground arith))
  | inl k ↦
      let id : n.id ≡ z = (eq_ℤ_iff n.id z).0 k in
      let own : some (newest ms n).node_count ≡ latest (some n.node_count) (version z ms) =
        newest-count ms n ∙ ap (λ y. latest (some n.node_count) (version y ms)) id in
      rw (newest-id ms n, k, own)
        (elim (Bool-cases (has_id z ns)) [
          | inl m ↦
              rw (version-known z ms ns m)
                (latest_share (some n.node_count) (version z ns) (version z ms))
          | inr m ↦
              rw
                (
                  version-absent z (map (newest ms) ns) (has_id-map-newest z ms ns ∙ m),
                  version-absent z ns m,
                )
                (latest-none (latest (some n.node_count) (version z ms)))
        ])
]

version-append :
    (z : ℤ) (ns ms : List Node) → version z (ns ++ ms) ≡ latest (version z ns) (version z ms)
version-append z [] ms = refl
version-append z (n ∷ ns) ms = elim (Bool-cases (eq_ℤ n.id z)) [
  | inr k ↦ rw k (version-append z ns ms)
  | inl k ↦ rw k (
      ap (latest (some n.node_count)) (version-append z ns ms)
      ∙ sym (latest_assoc (some n.node_count) (version z ns) (version z ms)))
]

unknown-absent : (z : ℤ) (ns ms : List Node) → has_id z ns ≡ true → has_id z (unknown ns ms) ≡ false
unfolding unknown
unknown-absent z ns [] e = refl
unknown-absent z ns (m ∷ ms) e = ground (arith, unknown-absent z ns ms, eq_ℤ_iff m.id z)

known_differs :
    (z : ℤ) (m : Node) (ns : List Node)
    → has_id z ns ≡ false
    → has_id m.id ns ≡ true
    → eq_ℤ m.id z ≡ false
known_differs z m ns e k = ground (arith, eq_ℤ_iff m.id z)

version-unknown :
    (z : ℤ) (ns ms : List Node) → has_id z ns ≡ false → version z (unknown ns ms) ≡ version z ms
unfolding unknown
version-unknown z ns [] e = refl
version-unknown z ns (m ∷ ms) e = elim (Bool-cases (has_id m.id ns)) [
  | inl k ↦ rw (k, known_differs z m ns e k) (version-unknown z ns ms e)
  | inr k ↦ elim (Bool-cases (eq_ℤ m.id z)) [
    | inl q ↦ rw (k, q) (ap (latest (some m.node_count)) (version-unknown z ns ms e))
    | inr q ↦ rw (k, q) (version-unknown z ns ms e)
  ]
]

-- The merged list has the later version of each node.
pub version-merge :
    (z : ℤ) (ns ms : List Node) → version z (merge ns ms) ≡ latest (version z ns) (version z ms)
unfolding merge
version-merge z ns ms =
    version-append z (map (newest ms) ns) (unknown ns ms) ∙ elim (Bool-cases (has_id z ns)) [
      | inl e ↦
          ap (latest (version z (map (newest ms) ns)))
            (version-absent z (unknown ns ms) (unknown-absent z ns ms e))
          ∙ latest-none (version z (map (newest ms) ns))
          ∙ version-known z ms ns e
      | inr e ↦
          ap (λ o. latest o (version z (unknown ns ms)))
            (version-absent z (map (newest ms) ns) (has_id-map-newest z ms ns ∙ e))
          ∙ version-unknown z ns ms e
          ∙ ap (λ o. latest o (version z ms)) (sym (version-absent z ns e))
    ]

-- The version after several lists: the largest count of all.
abbrev pub latest_all : ℤ → Option ℤ → List (List Node) → Option ℤ
latest_all z o [] = o
latest_all z o (ms ∷ mss) = latest_all z (latest o (version z ms)) mss

pub version-merge_all :
    (z : ℤ) (ns : List Node) (mss : List (List Node))
    → version z (merge_all ns mss) ≡ latest_all z (version z ns) mss
version-merge_all z ns [] = refl
version-merge_all z ns (ms ∷ mss) =
    version-merge_all z (merge ns ms) mss ∙ ap (λ o. latest_all z o mss) (version-merge z ns ms)

version-set : IsSet (Option ℤ)
version-set = Option.is_set (hedberg (hlevel ℕ_discrete))

latest_all-Permᴰ :
    (z : ℤ) (o : Option ℤ) {mss mss' : List (List Node)}
    → Permᴰ mss mss'
    → latest_all z o mss ≡ latest_all z o mss'
latest_all-Permᴰ z o Permᴰ.nil = refl
latest_all-Permᴰ z o (Permᴰ.cons {a} {b} {l₁} {l₂} e d) =
    ap (λ ms. latest_all z (latest o (version z ms)) l₁) e
    ∙ latest_all-Permᴰ z (latest o (version z b)) d
latest_all-Permᴰ z o (Permᴰ.swap {a} {b} {a'} {b'} {l} e d) =
    ap (λ w. latest_all z w l)
      (latest_assoc o (version z a) (version z b)
        ∙ ap (latest o) (latest_comm (version z a) (version z b))
        ∙ sym (latest_assoc o (version z b) (version z a))
        ∙ ap (λ x. latest (latest o (version z x)) (version z a)) d
        ∙ ap (λ x. latest (latest o (version z a')) (version z x)) e)
latest_all-Permᴰ z o (Permᴰ.trans d d') = latest_all-Permᴰ z o d ∙ latest_all-Permᴰ z o d'

pub version-Perm :
    (z : ℤ) (ns : List Node) (mss mss' : List (List Node))
    → Perm mss mss'
    → version z (merge_all ns mss) ≡ version z (merge_all ns mss')
version-Perm z ns mss mss' p =
    ∥∥₁_elim p (version-set (version z (merge_all ns mss)) (version z (merge_all ns mss'))) (λ d.
      version-merge_all z ns mss
      ∙ latest_all-Permᴰ z (version z ns) d
      ∙ sym (version-merge_all z ns mss'))
