-- ===== src/Table/Runs.antt =====
-- The branches of `Table_put` and `Table_remove` of NodeInfo/table.c.
use vpnp2p.Prelude.{ℕ, ltb, true, false, ◌≤◌, ◌+◌, ◌<◌, ◌≡◌, none, some, ◌∷◌, pos, arith, ◌%◌, ◌^◌}
use vpnp2p.CString.{is_int}
use vpnp2p.Table.Defs.{
  Binding, Table, done, undefined, bucket, index, find, assign, unlink, or_default, increment,
  decrement, add_binding, set_binding, drop_binding, Table_put, Table_remove,
}
use vpnp2p.Table.WellFormed.{total, lookup, with_bucket}

increment_below : (n : ℕ) → n + 1 < 2 ^ 31 → increment (pos n) ≡ done (pos (n + 1))
unfolding increment is_int
increment_below n room = ground arith

pub Table_put_new :
    (room : ℕ → ℕ) (t : Table) (key value : ℕ)
    → 24 ≤ room 8
    → 0 < key
    → find t.cmp key (bucket t (index t key)) ≡ none
    → t.length ≡ pos (total t.buckets)
    → total t.buckets + 1 < 2 ^ 31
    → (let p : Binding = record { key = key; value = value } in
        Table_put room t key value
        ≡ done (
          or_default (lookup t key) 0,
          with_bucket t
              (index t key)
              (p ∷ bucket t (index t key))
              (pos (total t.buckets + 1))
              ((t.timestamp + 1) % 2 ^ 32),
        ))
unfolding Table_put add_binding lookup
Table_put_new room t key value large positive none_yet counted small =
    let usable : ltb (room 8) 24 ≡ false = ground arith in
    rw (none_yet, usable, counted, increment_below (total t.buckets) small) (ground arith)

-- A block of the size that is asked for does not hold a binding.
pub Table_put_overruns :
    (room : ℕ → ℕ) (t : Table) (key value : ℕ)
    → room 8 < 24
    → 0 < key
    → find t.cmp key (bucket t (index t key)) ≡ none
    → Table_put room t key value ≡ undefined
unfolding Table_put add_binding
Table_put_overruns room t key value small positive none_yet =
    let unusable : ltb (room 8) 24 ≡ true = ground arith in rw (none_yet, unusable) (ground arith)

pub Table_put_old :
    (room : ℕ → ℕ) (t : Table) (key value v : ℕ)
    → 0 < key
    → find t.cmp key (bucket t (index t key)) ≡ some v
    → Table_put room t key value
      ≡ done (
        or_default (lookup t key) 0,
        with_bucket t
            (index t key)
            (assign t.cmp key value (bucket t (index t key)))
            t.length
            ((t.timestamp + 1) % 2 ^ 32),
      )
unfolding Table_put set_binding lookup
Table_put_old room t key value v positive found = rw found (ground arith)

decrement_above : (n : ℕ) → decrement (pos (n + 1)) ≡ done (pos n)
unfolding decrement
decrement_above n = ground arith

pub Table_remove_found :
    (t : Table) (key v n : ℕ)
    → 0 < key
    → find t.cmp key (bucket t (index t key)) ≡ some v
    → t.length ≡ pos (n + 1)
    → Table_remove t key
      ≡ done (
        or_default (lookup t key) 0,
        with_bucket t
            (index t key)
            (unlink t.cmp key (bucket t (index t key)))
            (pos n)
            ((t.timestamp + 1) % 2 ^ 32),
      )
unfolding Table_remove drop_binding lookup
Table_remove_found t key v n positive found counted =
    rw (found, counted, decrement_above n) (ground arith)

pub Table_remove_absent :
    (t : Table) (key : ℕ)
    → 0 < key
    → find t.cmp key (bucket t (index t key)) ≡ none
    → Table_remove t key
      ≡ done (or_default (lookup t key) 0, record t { timestamp = (t.timestamp + 1) % 2 ^ 32 })
unfolding Table_remove lookup
Table_remove_absent t key positive absent = rw absent (ground arith)
