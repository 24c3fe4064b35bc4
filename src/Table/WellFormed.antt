-- ===== src/Table/WellFormed.antt =====
-- The invariant of the tables of NodeInfo/table.c, and a table with one bucket replaced.
use vpnp2p.Prelude.{
  ℕ, zero, suc, ◌+◌, ◌<◌, ◌≡◌, ◌≢◌, refl, ap, ◌∙◌, Option, List, [], ◌∷◌, ℤ, pos, arith, ◌%◌,
  length, get_or, set, length-set, ==-cases, inl, inr,
}
use vpnp2p.Table.Bucket.{DistinctKeys, AllKeys}
use vpnp2p.Table.Defs.{Binding, Table, bucket, index, find}

abbrev pub total : List (List Binding) → ℕ
total [] = 0
total (b ∷ bs) = length b + total bs

-- A key of the `i`-th bucket of `size`.
abbrev pub IsPlaced : (ℕ → ℕ) → ℕ → ℕ → ℕ → Type 0
IsPlaced hash size i key = (0 < key) × (hash key % size ≡ i)

pub record WellFormed (t : Table) : Type 0 where
  pub size_positive : 0 < t.size
  pub size : length t.buckets ≡ t.size
  pub distinct : (i : ℕ) → i < t.size → DistinctKeys t.cmp (bucket t i)
  pub placed : (i : ℕ) → i < t.size → AllKeys t.cmp (IsPlaced t.hash t.size i) (bucket t i)
  pub length : t.length ≡ pos (total t.buckets)

-- The value of a key, if it has one.
unfoldable pub lookup : Table → ℕ → Option ℕ
unfolding find index
lookup t key = find t.cmp key (bucket t (index t key))

pub get_or-set_self {ℓ} :
    {A : Type ℓ} (xs : List A) (i : ℕ) (v d : A) → i < length xs → get_or (set xs i v) i d ≡ v
get_or-set_self [] i v d h = elim h [ ]
get_or-set_self (x ∷ xs) zero v d h = refl
get_or-set_self (x ∷ xs) (suc i) v d h = get_or-set_self xs i v d (omega arith)

pub get_or-set_ne {ℓ} :
    {A : Type ℓ} (xs : List A) (i j : ℕ) (v d : A) → j ≢ i → get_or (set xs i v) j d ≡ get_or xs j d
get_or-set_ne [] i j v d ne = refl
get_or-set_ne (x ∷ xs) zero zero v d ne = absurd (ne refl)
get_or-set_ne (x ∷ xs) zero (suc j) v d ne = refl
get_or-set_ne (x ∷ xs) (suc i) zero v d ne = refl
get_or-set_ne (x ∷ xs) (suc i) (suc j) v d ne = get_or-set_ne xs i j v d (λ e. ne (ap suc e))

pub total-set :
    (bs : List (List Binding)) (i : ℕ) (b : List Binding)
    → i < length bs
    → total (set bs i b) + length (get_or bs i []) ≡ total bs + length b
total-set [] i b h = elim h [ ]
total-set (c ∷ bs) zero b h = omega arith
total-set (c ∷ bs) (suc i) b h = omega (arith, total-set bs i b (omega arith))

-- A table that differs in one bucket, and in the counts.
abbrev pub with_bucket : Table → ℕ → List Binding → ℤ → ℕ → Table
with_bucket t i b n stamp = record t { length = n; timestamp = stamp; buckets = set t.buckets i b }

module _ (t : Table) (w : WellFormed t) (i : ℕ) (low : i < t.size) (b : List Binding) (n : ℤ)
    (stamp : ℕ) where
  pub bucket_self : bucket (with_bucket t i b n stamp) i ≡ b
  bucket_self = get_or-set_self t.buckets i b [] (rw w.size low)

  pub bucket_ne : (j : ℕ) → j ≢ i → bucket (with_bucket t i b n stamp) j ≡ bucket t j
  bucket_ne j ne = get_or-set_ne t.buckets i j b [] ne

  pub with_bucket-WellFormed :
      DistinctKeys t.cmp b
      → AllKeys t.cmp (IsPlaced t.hash t.size i) b
      → n ≡ pos (total (set t.buckets i b))
      → WellFormed (with_bucket t i b n stamp)
  with_bucket-WellFormed d a e = record {
    size_positive = w.size_positive;
    size = length-set t.buckets i b ∙ w.size;
    distinct = λ j below. elim (==-cases j i) [
      | inl q ↦ rw (q, bucket_self) d
      | inr q ↦ rw (bucket_ne j q) (w.distinct j below)
    ];
    placed = λ j below. elim (==-cases j i) [
      | inl q ↦ rw (q, bucket_self) a
      | inr q ↦ rw (bucket_ne j q) (w.placed j below)
    ];
    length = e;
  }
