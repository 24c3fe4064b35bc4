-- ===== src/Table/Defs.antt =====
-- NodeInfo/table.c as functions on the table. Keys and values are pointers, `NULL` is 0, and a
-- bucket is the list of its bindings. `malloc` does not fail.
use vpnp2p.Prelude.{
  ℕ, zero, suc, ◌+◌, ◌*◌, ◌/◌, ◌%◌, ◌^◌, Bool, Option, none, some, List, [], ◌∷◌, ◌++◌, ℤ, pos,
  negsuc, eq_ℤ, ltb, ◌==◌, if◌then◌else◌, length, get_or, set, replicate,
}
use vpnp2p.CString.{is_int}

pub data Outcome (A : Type 0) : Type 0 where
  done : A → Outcome A
  assertion_failed : Outcome A
  undefined : Outcome A

infixl 5 ◌>>=◌
abbrev pub ◌>>=◌ : {A B : Type 0} → Outcome A → (A → Outcome B) → Outcome B
done a >>= f = f a
assertion_failed >>= f = assertion_failed
undefined >>= f = undefined

-- `assert(pointer)`
abbrev pub assert_not_null : ℕ → Outcome (Unit {0})
assert_not_null p = if p == 0 then assertion_failed else done tt

pub record Binding : Type 0 where
  pub key : ℕ
  pub value : ℕ

pub record Table : Type 0 where
  pub size : ℕ
  pub cmp : ℕ → ℕ → ℤ
  pub hash : ℕ → ℕ
  pub length : ℤ
  pub timestamp : ℕ
  pub buckets : List (List Binding)

unfoldable pub cmpatom : ℕ → ℕ → ℤ
cmpatom x y = if x == y then pos 0 else pos 1

unfoldable pub hashatom : ℕ → ℕ
hashatom key = (key / 4) % 2 ^ 32

abbrev pub primes : List ℕ
primes = 509 ∷ 1021 ∷ 2053 ∷ 4093 ∷ 8191 ∷ 16381 ∷ 32771 ∷ 65521 ∷ 2147483647 ∷ []

-- `for (i = 1; primes[i] < hint; i++)`, then `primes[i-1]`: that prime, and those from `i` on.
unfoldable pub choose_size : ℕ → ℕ → List ℕ → Outcome ℕ
choose_size hint before [] = undefined
choose_size hint before (p ∷ ps) =
    let more = choose_size hint p ps in if ltb p hint then more else done before

abbrev pub or_default : {A : Type 0} → Option A → A → A
or_default none d = d
or_default (some f) d = f

unfoldable pub Table_new : ℤ → Option (ℕ → ℕ → ℤ) → Option (ℕ → ℕ) → Outcome Table
unfolding choose_size
Table_new (negsuc hint) cmp hash = assertion_failed
Table_new (pos hint) cmp hash = do
  size ← choose_size hint 509 primes
  done (record {
    size = size;
    cmp = or_default cmp cmpatom;
    hash = or_default hash hashatom;
    length = pos 0;
    timestamp = 0;
    buckets = replicate size [];
  })

-- `(*table->cmp)(x, y) == 0`
abbrev pub equal : (ℕ → ℕ → ℤ) → ℕ → ℕ → Bool
equal cmp x y = eq_ℤ (cmp x y) (pos 0)

-- The loop that looks for a key in a bucket: the value of the first binding that has it.
unfoldable pub find : (ℕ → ℕ → ℤ) → ℕ → List Binding → Option ℕ
find cmp key [] = none
find cmp key (p ∷ ps) =
    let rest = find cmp key ps in if equal cmp key p.key then some p.value else rest

-- `p->value = value` for that binding.
unfoldable pub assign : (ℕ → ℕ → ℤ) → ℕ → ℕ → List Binding → List Binding
assign cmp key value [] = []
assign cmp key value (p ∷ ps) =
    let rest = assign cmp key value ps in
    if equal cmp key p.key then record p { value = value } ∷ ps else p ∷ rest

-- `*pp = p->link` for that binding.
unfoldable pub unlink : (ℕ → ℕ → ℤ) → ℕ → List Binding → List Binding
unlink cmp key [] = []
unlink cmp key (p ∷ ps) =
    let rest = unlink cmp key ps in if equal cmp key p.key then ps else p ∷ rest

-- `(*table->hash)(key) % table->size`
unfoldable pub index : Table → ℕ → ℕ
index table key = table.hash key % table.size

abbrev pub bucket : Table → ℕ → List Binding
bucket table i = get_or table.buckets i []

unfoldable pub Table_get : Table → ℕ → Outcome ℕ
unfolding find index
Table_get table key = do
  tt ← assert_not_null key
  done (or_default (find table.cmp key (bucket table (index table key))) 0)

-- `n++` and `n--` for an `int`
unfoldable pub increment : ℤ → Outcome ℤ
increment (pos n) = if is_int (pos (n + 1)) then done (pos (n + 1)) else undefined
increment (negsuc zero) = done (pos 0)
increment (negsuc (suc n)) = done (negsuc n)

unfoldable pub decrement : ℤ → Outcome ℤ
decrement (pos zero) = done (negsuc 0)
decrement (pos (suc n)) = done (pos n)
decrement (negsuc n) = if is_int (negsuc (n + 1)) then done (negsuc (n + 1)) else undefined

-- The two branches of `Table_put` behind the search: the key is new, or has a value. For a new key
-- `malloc` is asked for the size of a pointer, 8, and a struct of 24 bytes is filled. `room` says how
-- many bytes can be used in a block of the size that was asked for.
unfoldable pub add_binding : (ℕ → ℕ) → Table → ℕ → ℕ → ℕ → Outcome (ℕ × Table)
unfolding increment
add_binding room table i key value = if ltb (room 8) 24 then undefined else (do
  length' ← increment table.length
  let p : Binding = record { key = key; value = value }
  done (
    0,
    record table {
      length = length';
      timestamp = (table.timestamp + 1) % 2 ^ 32;
      buckets = set table.buckets i (p ∷ bucket table i);
    },
  ))

unfoldable pub set_binding : Table → ℕ → ℕ → ℕ → ℕ → Outcome (ℕ × Table)
unfolding assign
set_binding table i key value prev = done (
  prev,
  record table {
    timestamp = (table.timestamp + 1) % 2 ^ 32;
    buckets = set table.buckets i (assign table.cmp key value (bucket table i));
  },
)

-- The previous value, and the table.
unfoldable pub Table_put : (ℕ → ℕ) → Table → ℕ → ℕ → Outcome (ℕ × Table)
unfolding find index add_binding set_binding
Table_put room table key value = do
  tt ← assert_not_null key
  let i = index table key
  elim (find table.cmp key (bucket table i)) [
    | none ↦ add_binding room table i key value
    | some prev ↦ set_binding table i key value prev
  ]

unfoldable pub Table_length : Table → ℤ
Table_length table = table.length

-- The branch of `Table_remove` in which the key is found.
unfoldable pub drop_binding : Table → ℕ → ℕ → ℕ → Outcome (ℕ × Table)
unfolding decrement unlink
drop_binding table i key value = do
  length' ← decrement table.length
  done (
    value,
    record table {
      length = length';
      buckets = set table.buckets i (unlink table.cmp key (bucket table i));
    },
  )

unfoldable pub Table_remove : Table → ℕ → Outcome (ℕ × Table)
unfolding find index drop_binding
Table_remove table key = do
  tt ← assert_not_null key
  let stamped = record table { timestamp = (table.timestamp + 1) % 2 ^ 32 }
  let i = index table key
  elim (find table.cmp key (bucket table i)) [
    | none ↦ done (0, stamped)
    | some value ↦ drop_binding stamped i key value
  ]

-- `array[j++] = x` in an array of `room` elements, of which those of `array` are written.
unfoldable pub append_to : ℕ → List ℕ → ℕ → Outcome (List ℕ)
append_to room array x = if ltb (length array) room then done (array ++ x ∷ []) else undefined

unfoldable pub write_bucket : ℕ → List Binding → List ℕ → Outcome (List ℕ)
unfolding append_to
write_bucket room [] array = done array
write_bucket room (p ∷ ps) array = do
  array₁ ← append_to room array p.key
  array₂ ← append_to room array₁ p.value
  write_bucket room ps array₂

unfoldable pub write_buckets : ℕ → List (List Binding) → List ℕ → Outcome (List ℕ)
unfolding write_bucket
write_buckets room [] array = done array
write_buckets room (b ∷ bs) array = do
  array' ← write_bucket room b array
  write_buckets room bs array'

-- `2 * table->length + 1`
unfoldable pub array_room : ℤ → Outcome ℕ
array_room (pos n) = if is_int (pos (2 * n + 1)) then done (2 * n + 1) else undefined
array_room (negsuc n) = undefined

unfoldable pub Table_to_array : Table → ℕ → Outcome (List ℕ)
unfolding array_room write_buckets append_to
Table_to_array table end = do
  room ← array_room table.length
  array ← write_buckets room table.buckets []
  append_to room array end
