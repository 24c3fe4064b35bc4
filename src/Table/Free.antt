-- ===== src/Table/Free.antt =====
-- `Table_free` of NodeInfo/table.c: the calls of `free`.
use vpnp2p.Prelude.{
  ◌+◌, ◌≡◌, ap, sym, List, [], ◌∷◌, ◌++◌, pos, arith, length, length-append, if◌then◌else◌, ltb_ℤ,
  Bool-cases, inl, inr,
}
use vpnp2p.Table.Defs.{Binding, Table}
use vpnp2p.Table.WellFormed.{total, WellFormed}

-- The bindings of one bucket, each read before it is freed.
unfoldable pub free_bucket : List Binding → List Binding → List Binding
free_bucket freed [] = freed
free_bucket freed (p ∷ q) = free_bucket (freed ++ p ∷ []) q

unfoldable pub free_buckets : List Binding → List (List Binding) → List Binding
unfolding free_bucket
free_buckets freed [] = freed
free_buckets freed (bucket ∷ buckets) = free_buckets (free_bucket freed bucket) buckets

-- The bindings of a table that are freed, in their order. The table itself is not.
unfoldable pub Table_free : Table → List Binding
unfolding free_buckets
Table_free table = if ltb_ℤ (pos 0) table.length then free_buckets [] table.buckets else []

free_bucket-total :
    (freed b : List Binding) → length (free_bucket freed b) ≡ length freed + length b
unfolding free_bucket
free_bucket-total freed [] = omega arith
free_bucket-total freed (p ∷ b) =
    omega (arith, free_bucket-total (freed ++ p ∷ []) b, length-append freed (p ∷ []))

free_buckets-total :
    (freed : List Binding) (bs : List (List Binding))
    → length (free_buckets freed bs) ≡ length freed + total bs
unfolding free_buckets
free_buckets-total freed [] = omega arith
free_buckets-total freed (b ∷ bs) =
    omega (arith, free_buckets-total (free_bucket freed b) bs, free_bucket-total freed b)

-- A table that counts no binding has none to free.
counted-total :
    (bs : List (List Binding))
    → length (if ltb_ℤ (pos 0) (pos (total bs)) then free_buckets [] bs else []) ≡ total bs
counted-total bs = elim (Bool-cases (ltb_ℤ (pos 0) (pos (total bs)))) [
  | inl e ↦ rw e (omega (arith, free_buckets-total [] bs))
  | inr e ↦ rw e (ground arith)
]

-- On a well-formed table `Table_free` frees as many bindings as the table counts.
pub Table_free-length : (t : Table) → WellFormed t → t.length ≡ pos (length (Table_free t))
unfolding Table_free
Table_free-length t w = rw w.length (ap pos (sym (counted-total t.buckets)))
