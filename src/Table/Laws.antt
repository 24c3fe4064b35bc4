-- ===== src/Table/Laws.antt =====
-- What the operations of NodeInfo/table.c do to the map that a table stands for.
use native.Mathlib.Nat.{mod-lt}
use vpnp2p.Prelude.{
  ℕ, ◌⊎◌, ◌≤◌, ◌+◌, ◌<◌, ◌≡◌, ◌≢◌, refl, sym, ap, ◌∙◌, false, Option, none, some, List, [], ◌∷◌, ℤ,
  pos, arith, ◌%◌, ◌^◌, if◌then◌else◌, length, get_or, set, ==-cases, Option-cases, Bool-cases, inl,
  inr,
}
use vpnp2p.Table.Bucket.{
  KeyLaws, DistinctKeys, AllKeys, find-equal, find-assign, find-unlink, assign-DistinctKeys,
  unlink-DistinctKeys, assign-AllKeys, unlink-AllKeys, length-assign, length-unlink,
}
use vpnp2p.Table.Defs.{
  Binding, Table, done, bucket, index, equal, find, assign, unlink, or_default, Table_get,
  Table_put, Table_remove,
}
use vpnp2p.Table.WellFormed.{
  total, IsPlaced, WellFormed, lookup, total-set, with_bucket, bucket_self, bucket_ne,
  with_bucket-WellFormed,
}
use vpnp2p.Table.Runs.{Table_put_new, Table_put_old, Table_remove_found, Table_remove_absent}

-- A table with the same keys' functions that stands for the map `f`.
pub record StandsFor (t t' : Table) (f : ℕ → Option ℕ) : Type 0 where
  pub wf : WellFormed t'
  pub cmp : t'.cmp ≡ t.cmp
  pub hash : t'.hash ≡ t.hash
  pub lookup : (y : ℕ) → lookup t' y ≡ f y

-- `Table_get` reads the map; `NULL` stands for no value.
pub Table_get-lookup :
    (t : Table) (key : ℕ) → 0 < key → Table_get t key ≡ done (or_default (lookup t key) 0)
unfolding Table_get lookup
Table_get-lookup t key positive = ground arith

index_low : (t : Table) (key : ℕ) → WellFormed t → index t key < t.size
unfolding index
index_low t key w = mod-lt (t.hash key) w.size_positive

-- The map after one bucket was replaced.
lookup-with_bucket :
    (t : Table) (w : WellFormed t) (i : ℕ) (low : i < t.size) (b : List Binding) (n : ℤ) (stamp : ℕ)
    (f : ℕ → Option ℕ)
    → ((y : ℕ) → index t y ≡ i → find t.cmp y b ≡ f y)
    → ((y : ℕ) → index t y ≢ i → lookup t y ≡ f y)
    → (y : ℕ) → lookup (with_bucket t i b n stamp) y ≡ f y
unfolding lookup index
lookup-with_bucket t w i low b n stamp f here there y = elim (==-cases (index t y) i) [
  | inl q ↦
      ap (find t.cmp y)
        (ap (λ j. get_or (set t.buckets i b) j []) q ∙ bucket_self t w i low b n stamp)
      ∙ here y q
  | inr q ↦ ap (find t.cmp y) (bucket_ne t w i low b n stamp (index t y) q) ∙ there y q
]

module _ (t : Table) (w : WellFormed t) (laws : KeyLaws t.cmp t.hash) where
  index_apart : (y key : ℕ) → index t y ≢ index t key → equal t.cmp y key ≡ false
  unfolding index
  index_apart y key ne = elim (Bool-cases (equal t.cmp y key)) [
    | inl q ↦ absurd (ne (ap (λ x. x % t.size) (laws.same_hash y key q)))
    | inr q ↦ q
  ]

  -- The map with the value of one key changed to `o`, when its bucket is replaced by `b`.
  change-StandsFor :
      (key : ℕ) (b : List Binding) (n : ℤ) (stamp : ℕ) (o : Option ℕ)
      → DistinctKeys t.cmp b
      → AllKeys t.cmp (IsPlaced t.hash t.size (index t key)) b
      → n ≡ pos (total (set t.buckets (index t key) b))
      → ((y : ℕ)
          → find t.cmp y b
            ≡ (if equal t.cmp y key then o else find t.cmp y (bucket t (index t key))))
      → StandsFor t
          (with_bucket t (index t key) b n stamp)
          (λ y. if equal t.cmp y key then o else lookup t y)
  unfolding lookup
  change-StandsFor key b n stamp o d a e here = record {
    wf = with_bucket-WellFormed t w (index t key) (index_low t key w) b n stamp d a e;
    cmp = refl;
    hash = refl;
    lookup =
        lookup-with_bucket t w (index t key) (index_low t key w) b n stamp
          (λ y. if equal t.cmp y key then o else lookup t y)
          (λ y q.
            here y ∙ ap (λ j. if equal t.cmp y key then o else find t.cmp y (bucket t j)) (sym q))
          (λ y ne. rw (index_apart y key ne) refl);
  }

  usable_new :
      (room : ℕ → ℕ) (key : ℕ)
      → (24 ≤ room 8) ⊎ (lookup t key ≢ none)
      → find t.cmp key (bucket t (index t key)) ≡ none
      → 24 ≤ room 8
  unfolding lookup
  usable_new room key (inl large) none_yet = large
  usable_new room key (inr old) none_yet = absurd (old none_yet)

  -- On a well-formed table whose `cmp` and `hash` obey the laws of keys and which counts fewer than
  -- 2^31 - 1 bindings, `Table_put` of a key that is not `NULL` returns the value that the key had
  -- before, or `NULL`, if a block of 8 bytes, for which it asks, has room for the 24 bytes of a
  -- binding or the key is not new. The table is well-formed again, and stands for the same map but for the keys equal to
  -- this one, which have the new value.
  pub Table_put-StandsFor :
      (room : ℕ → ℕ) (key value : ℕ)
      → (24 ≤ room 8) ⊎ (lookup t key ≢ none)
      → 0 < key
      → total t.buckets + 1 < 2 ^ 31
      → (t' : Table) × (Table_put room t key value ≡ done (or_default (lookup t key) 0, t'))
        × StandsFor t t' (λ y. if equal t.cmp y key then some value else lookup t y)
  Table_put-StandsFor room key value usable positive small =
      let i = index t key in
      let stamp = (t.timestamp + 1) % 2 ^ 32 in
      let low = index_low t key w in
      let room_i : i < length t.buckets = rw w.size low in
      elim (Option-cases (find t.cmp key (bucket t i))) [
        | inl none_yet ↦
            let p : Binding = record { key = key; value = value } in
            let b = p ∷ bucket t i in
            (
              with_bucket t i b (pos (total t.buckets + 1)) stamp,
              Table_put_new room t key value (usable_new room key usable none_yet) positive none_yet
                  w.length small,
              change-StandsFor key b (pos (total t.buckets + 1)) stamp (some value)
                  (none_yet, w.distinct i low) ((positive, unfold index in refl), w.placed i low)
                  (ap pos (omega (arith, total-set t.buckets i b room_i)))
                  (λ y. unfold find in refl),
            )
        | inr (v, found) ↦
            let b = assign t.cmp key value (bucket t i) in
            (
              with_bucket t i b t.length stamp,
              Table_put_old room t key value v positive found,
              change-StandsFor key b t.length stamp (some value)
                  (assign-DistinctKeys laws key value (bucket t i) (w.distinct i low))
                  (assign-AllKeys t.cmp (IsPlaced t.hash t.size i) key value (bucket t i)
                    (w.placed i low))
                  (w.length
                    ∙ ap pos (
                        omega (
                          arith,
                          total-set t.buckets i b room_i,
                          length-assign t.cmp key value (bucket t i),
                        )))
                  (λ y. find-assign laws key y value v (bucket t i) found),
            )
      ]

  absent_everywhere :
      (key y : ℕ)
      → find t.cmp key (bucket t (index t key)) ≡ none
      → lookup t y ≡ (if equal t.cmp y key then none else lookup t y)
  unfolding lookup index
  absent_everywhere key y absent = elim (Bool-cases (equal t.cmp y key)) [
    | inl q ↦
        rw (q, laws.same_hash y key q, find-equal laws y key (bucket t (index t key)) q) absent
    | inr q ↦ rw q refl
  ]

  -- On a well-formed table whose `cmp` and `hash` obey the laws of keys, `Table_remove` of a key
  -- that is not `NULL` returns the value of the key, or `NULL`. The table is well-formed again,
  -- and stands for the same map but for the keys equal to this one, which have no value.
  pub Table_remove-StandsFor :
      (key : ℕ)
      → 0 < key
      → (t' : Table) × (Table_remove t key ≡ done (or_default (lookup t key) 0, t'))
        × StandsFor t t' (λ y. if equal t.cmp y key then none else lookup t y)
  Table_remove-StandsFor key positive =
      let i = index t key in
      let stamp = (t.timestamp + 1) % 2 ^ 32 in
      let low = index_low t key w in
      let room_i : i < length t.buckets = rw w.size low in
      elim (Option-cases (find t.cmp key (bucket t i))) [
        | inl absent ↦ (
          record t { timestamp = stamp },
          Table_remove_absent t key positive absent,
          record {
            wf = record {
              size_positive = w.size_positive;
              size = w.size;
              distinct = w.distinct;
              placed = w.placed;
              length = w.length;
            };
            cmp = refl;
            hash = refl;
            lookup = λ y. unfold lookup index in absent_everywhere key y absent;
          },
        )
        | inr (v, found) ↦
            let b = unlink t.cmp key (bucket t i) in
            let n = total (set t.buckets i b) in
            let counted : total t.buckets ≡ n + 1 = omega (
              arith,
              total-set t.buckets i b room_i,
              length-unlink t.cmp key v (bucket t i) found,
            ) in
            (
              with_bucket t i b (pos n) stamp,
              Table_remove_found t key v n positive found (w.length ∙ ap pos counted),
              change-StandsFor key b (pos n) stamp none
                  (unlink-DistinctKeys laws key (bucket t i) (w.distinct i low))
                  (unlink-AllKeys t.cmp (IsPlaced t.hash t.size i) key (bucket t i)
                    (w.placed i low))
                  refl (λ y. find-unlink laws key y (bucket t i) (w.distinct i low)),
            )
      ]

  -- Under the conditions of `Table_put-StandsFor`, `Table_put` returns what `Table_get` of the key returned. Afterwards `Table_get` returns the new value for every
  -- key equal to this one, and what it returned before for the others.
  pub Table_get-Table_put :
      (room : ℕ → ℕ) (key value : ℕ)
      → (24 ≤ room 8) ⊎ (lookup t key ≢ none)
      → 0 < key
      → total t.buckets + 1 < 2 ^ 31
      → (prev : ℕ) × (t' : Table) × (Table_put room t key value ≡ done (prev, t'))
        × (Table_get t key ≡ done prev)
        × ((y : ℕ)
            → 0 < y
            → Table_get t' y ≡ (if equal t.cmp y key then done value else Table_get t y))
  Table_get-Table_put room key value usable positive small =
      let (t', run, s) = Table_put-StandsFor room key value usable positive small in
      (
        or_default (lookup t key) 0,
        t',
        run,
        Table_get-lookup t key positive,
        λ y pos_y.
            rw (Table_get-lookup t' y pos_y, s.lookup y, Table_get-lookup t y pos_y) (ground arith),
      )
