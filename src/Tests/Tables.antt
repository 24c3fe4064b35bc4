-- ===== src/Tests/Tables.antt =====
-- The theorems on NodeInfo/table.c, at a table with one binding.
use vpnp2p.Prelude.{
  ℕ, zero, suc, ◌+◌, ◌*◌, ◌<◌, ◌≡◌, refl, none, some, [], ◌∷◌, ◌++◌, pos, length, arith, inl,
  if◌then◌else◌,
}
use vpnp2p.Table.Array.{all_entries, Table_to_array-all_entries, IsBinding, lookup-IsBinding}
use vpnp2p.Table.Bucket.{DistinctKeys, AllKeys}
use vpnp2p.Table.Laws.{StandsFor, Table_put-StandsFor, Table_remove-StandsFor}
use vpnp2p.Table.Sizes.{atom-KeyLaws, ChosenSize, Table_new-WellFormed}
use vpnp2p.Table.WellFormed.{WellFormed, IsPlaced, lookup, total}
use vpnp2p.Table.{
  Table, Binding, bucket, done, or_default, equal, find, cmpatom, hashatom, Table_new, Table_put,
  Table_remove, Table_to_array,
}

abbrev binding : Binding
binding = record { key = 8; value = 5 }

-- A table of one bucket, with the binding of 8.
abbrev small : Table
small = record {
  size = 1;
  cmp = cmpatom;
  hash = hashatom;
  length = pos 1;
  timestamp = 1;
  buckets = (binding ∷ []) ∷ [];
}

none_below : (i : ℕ) → suc i < 1 → ⊥
none_below i low = omega arith

small-distinct : (i : ℕ) → i < 1 → DistinctKeys cmpatom (bucket small i)
unfolding find
small-distinct zero low = (refl, tt)
small-distinct (suc i) low = elim (none_below i low) [ ]

small-IsPlaced : (i : ℕ) → i < 1 → AllKeys cmpatom (IsPlaced hashatom 1 i) (bucket small i)
unfolding hashatom
small-IsPlaced zero low = ((omega arith, refl), tt)
small-IsPlaced (suc i) low = elim (none_below i low) [ ]

small-WellFormed : WellFormed small
small-WellFormed = record {
  size_positive = omega arith;
  size = refl;
  distinct = small-distinct;
  placed = small-IsPlaced;
  length = refl;
}

Table_new-WellFormed_example :
    (t : Table) × (Table_new (pos 3) none none ≡ done t)
    × WellFormed t
    × ChosenSize 3 t.size
    × (t.cmp ≡ or_default none cmpatom)
    × (t.hash ≡ or_default none hashatom)
    × ((key : ℕ) → lookup t key ≡ none)
Table_new-WellFormed_example = Table_new-WellFormed 3 none none (omega arith)

Table_put-StandsFor_example :
    (t' : Table) × (Table_put (λ n. 24) small 12 6 ≡ done (or_default (lookup small 12) 0, t'))
    × StandsFor small t' (λ y. if equal cmpatom y 12 then some 6 else lookup small y)
Table_put-StandsFor_example =
    Table_put-StandsFor small small-WellFormed atom-KeyLaws (λ n. 24) 12 6 (inl (omega arith))
      (omega arith) (omega arith)

Table_remove-StandsFor_example :
    (t' : Table) × (Table_remove small 8 ≡ done (or_default (lookup small 8) 0, t'))
    × StandsFor small t' (λ y. if equal cmpatom y 8 then none else lookup small y)
Table_remove-StandsFor_example =
    Table_remove-StandsFor small small-WellFormed atom-KeyLaws 8 (omega arith)

Table_to_array-all_entries_example :
    (Table_to_array small 0 ≡ done (all_entries ((binding ∷ []) ∷ []) ++ 0 ∷ []))
    × (length (all_entries ((binding ∷ []) ∷ []) ++ 0 ∷ []) ≡ 2 * total ((binding ∷ []) ∷ []) + 1)
Table_to_array-all_entries_example =
    Table_to_array-all_entries small 0 small-WellFormed (omega arith)

binding-IsBinding : IsBinding small binding
binding-IsBinding = record { place = 0; low = omega arith; within = inl refl }

lookup-IsBinding_example : lookup small 8 ≡ some 5
lookup-IsBinding_example =
    lookup-IsBinding small small-WellFormed atom-KeyLaws binding binding-IsBinding
