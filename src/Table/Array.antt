-- ===== src/Table/Array.antt =====
-- What `Table_toArray` of NodeInfo/table.c lists.
use mathlib.Core.List.{append_assoc, append-nil}
use vpnp2p.Prelude.{
  ℕ, ◌+◌, ◌*◌, ◌≤◌, ◌<◌, ◌≡◌, refl, sym, ap, some, List, [], ◌∷◌, ◌++◌, pos, arith, ◌⊎◌, inl, inr,
  length, length-append, Bool-cases, ◌^◌,
}
use vpnp2p.CString.{is_int}
use vpnp2p.Table.Bucket.{DistinctKeys, AllKeys, KeyLaws, find-equal}
use vpnp2p.Table.Defs.{
  Binding, Table, done, bucket, index, equal, find, append_to, write_bucket, write_buckets,
  array_room, Table_to_array,
}
use vpnp2p.Table.WellFormed.{total, IsPlaced, WellFormed, lookup}

-- The keys and values of a bucket, and of all.
abbrev pub entries : List Binding → List ℕ
entries [] = []
entries (p ∷ ps) = p.key ∷ p.value ∷ entries ps

abbrev pub all_entries : List (List Binding) → List ℕ
all_entries [] = []
all_entries (b ∷ bs) = entries b ++ all_entries bs

length-entries : (b : List Binding) → length (entries b) ≡ 2 * length b
length-entries [] = refl
length-entries (p ∷ b) = omega (arith, length-entries b)

pub length-all_entries : (bs : List (List Binding)) → length (all_entries bs) ≡ 2 * total bs
length-all_entries [] = refl
length-all_entries (b ∷ bs) =
    omega
      (arith, length-append (entries b) (all_entries bs), length-entries b, length-all_entries bs)

append_to-room :
    (room : ℕ) (array : List ℕ) (x : ℕ)
    → length array < room
    → append_to room array x ≡ done (array ++ x ∷ [])
unfolding append_to
append_to-room room array x fits = ground arith

write_bucket-entries :
    (room : ℕ) (b : List Binding) (array : List ℕ)
    → length array + 2 * length b ≤ room
    → write_bucket room b array ≡ done (array ++ entries b)
unfolding write_bucket
write_bucket-entries room [] array fits = ap done (sym (append-nil array))
write_bucket-entries room (p ∷ b) array fits =
    let array₁ = array ++ p.key ∷ [] in
    let array₂ = array₁ ++ p.value ∷ [] in
    let one = length-append array (p.key ∷ []) in
    let two = length-append array₁ (p.value ∷ []) in
    rw
      (
        append_to-room room array p.key (omega arith),
        append_to-room room array₁ p.value (omega arith),
        write_bucket-entries room b array₂ (omega arith),
        append_assoc array₁ (p.value ∷ []) (entries b),
        append_assoc array (p.key ∷ []) (p.value ∷ entries b),
      )
      refl

write_buckets-entries :
    (room : ℕ) (bs : List (List Binding)) (array : List ℕ)
    → length array + 2 * total bs ≤ room
    → write_buckets room bs array ≡ done (array ++ all_entries bs)
unfolding write_buckets
write_buckets-entries room [] array fits = ap done (sym (append-nil array))
write_buckets-entries room (b ∷ bs) array fits =
    let array' = array ++ entries b in
    let one = length-append array (entries b) in
    let two = length-entries b in
    rw
      (
        write_bucket-entries room b array (omega arith),
        write_buckets-entries room bs array' (omega arith),
        append_assoc array (entries b) (all_entries bs),
      )
      refl

-- On a well-formed table of fewer than 2^30 bindings `Table_toArray` writes all keys and values,
-- bucket by bucket, and then `end`; these are as many as its array has room for.
pub Table_to_array-all_entries :
    (t : Table) (end : ℕ)
    → WellFormed t
    → total t.buckets < 2 ^ 30
    → (Table_to_array t end ≡ done (all_entries t.buckets ++ end ∷ []))
      × (length (all_entries t.buckets ++ end ∷ []) ≡ 2 * total t.buckets + 1)
unfolding Table_to_array array_room is_int
Table_to_array-all_entries t end w small =
    let room = 2 * total t.buckets + 1 in
    let fits : array_room (pos (total t.buckets)) ≡ done room = ground arith in
    let size = length-all_entries t.buckets in
    (
      rw
          (
            w.length,
            fits,
            write_buckets-entries room t.buckets [] (omega arith),
            append_to-room room (all_entries t.buckets) end (omega arith),
          )
          refl,
      omega (arith, length-append (all_entries t.buckets) (end ∷ []), size),
    )

-- A binding of a bucket, and of the table.
abbrev pub InBucket : Binding → List Binding → Type 0
InBucket p [] = ⊥
InBucket p (q ∷ ps) = (p ≡ q) ⊎ InBucket p ps

pub record IsBinding (t : Table) (p : Binding) : Type 0 where
  pub place : ℕ
  pub low : place < t.size
  pub within : InBucket p (bucket t place)

module _ (t : Table) (w : WellFormed t) (laws : KeyLaws t.cmp t.hash) where
  find-InBucket :
      (p : Binding) (ps : List Binding)
      → DistinctKeys t.cmp ps
      → InBucket p ps
      → find t.cmp p.key ps ≡ some p.value
  unfolding find
  find-InBucket p [] d e = elim e [ ]
  find-InBucket p (q ∷ ps) (new, d) (inl e) = rw (e, laws.refl q.key) refl
  find-InBucket p (q ∷ ps) (new, d) (inr e) = elim (Bool-cases (equal t.cmp p.key q.key)) [
    | inl same ↦ ground (arith, find-equal laws p.key q.key ps same, find-InBucket p ps d e)
    | inr apart ↦ rw apart (find-InBucket p ps d e)
  ]

  AllKeys-InBucket :
      (At : ℕ → Type 0) (p : Binding) (ps : List Binding)
      → AllKeys t.cmp At ps
      → InBucket p ps
      → At p.key
  AllKeys-InBucket At p [] a e = elim e [ ]
  AllKeys-InBucket At p (q ∷ ps) (at, a) (inl e) = rw e at
  AllKeys-InBucket At p (q ∷ ps) (at, a) (inr e) = AllKeys-InBucket At p ps a e

  -- In a well-formed table with lawful keys, the search for the key of any binding finds that
  -- binding's value.
  pub lookup-IsBinding : (p : Binding) → IsBinding t p → lookup t p.key ≡ some p.value
  unfolding lookup index
  lookup-IsBinding p b =
      let (positive, at) =
        AllKeys-InBucket (IsPlaced t.hash t.size b.place) p (bucket t b.place)
          (w.placed b.place b.low) b.within in
      rw at (find-InBucket p (bucket t b.place) (w.distinct b.place b.low) b.within)
