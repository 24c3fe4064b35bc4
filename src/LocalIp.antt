-- ===== src/LocalIp.antt =====
-- `get_local_ip` of Util/util.c: the addresses of the machine in an array of ten slots.
use vpnp2p.Prelude.{
  ◌≤◌, ◌<◌, ◌≡◌, refl, Option, none, some, List, [], ◌∷◌, ◌++◌, map, arith, ltb, leb, leb→le,
  lt→ltb, Bool-cases, inl, inr, if◌then◌else◌, length, drop,
}
use mathlib.Core.List.{reverse}
use vpnp2p.CString.{Bytes}

infixl 5 ◌>>=◌
abbrev ◌>>=◌ : {A B : Type 0} → Option A → (A → Option B) → Option B
none >>= f = none
some a >>= f = f a

-- The loop over the interfaces, of which some have an address, with the slots from `length` on.
-- `none` is a write past the array, or past the 16 bytes that a slot points to.
unfoldable pub fill_slots : List (Option Bytes) → List (Option Bytes) → Option (List (Option Bytes))
fill_slots [] slots = some slots
fill_slots (none ∷ entries) slots = fill_slots entries slots
fill_slots (some ip ∷ entries) [] = none
fill_slots (some ip ∷ entries) (slot ∷ slots) = do
  rest ← fill_slots entries slots
  if ltb (length ip) 16 then some (some ip ∷ rest) else none

-- From the interfaces that the system reports, if it does, and what the fresh array holds. The loop
-- counts the interfaces down.
unfoldable pub get_local_ip :
    Option (List (Option Bytes)) → List (Option Bytes) → Option (List (Option Bytes))
unfolding fill_slots
get_local_ip none local_ip_list = some local_ip_list
get_local_ip (some interfaces) local_ip_list = fill_slots (reverse interfaces) local_ip_list

abbrev pub addresses : List (Option Bytes) → List Bytes
addresses [] = []
addresses (none ∷ entries) = addresses entries
addresses (some ip ∷ entries) = ip ∷ addresses entries

-- Every address has at most 15 bytes.
abbrev pub AllShort : List (Option Bytes) → Type 0
AllShort [] = Unit {0}
AllShort (none ∷ entries) = AllShort entries
AllShort (some ip ∷ entries) = (length ip < 16) × AllShort entries

fill_slots-fits :
    (entries slots : List (Option Bytes))
    → AllShort entries
    → length (addresses entries) ≤ length slots
    → fill_slots entries slots
      ≡ some (map some (addresses entries) ++ drop (length (addresses entries)) slots)
unfolding fill_slots
fill_slots-fits [] slots short room = refl
fill_slots-fits (none ∷ entries) slots short room = fill_slots-fits entries slots short room
fill_slots-fits (some ip ∷ entries) [] (low, short) room = absurd (omega arith)
fill_slots-fits (some ip ∷ entries) (slot ∷ slots) (low, short) room =
    rw (fill_slots-fits entries slots short (omega arith), lt→ltb (length ip) 16 low) refl

fill_slots-overruns :
    (entries slots : List (Option Bytes))
    → length slots < length (addresses entries)
    → fill_slots entries slots ≡ none
unfolding fill_slots
fill_slots-overruns [] slots over = absurd (omega arith)
fill_slots-overruns (none ∷ entries) slots over = fill_slots-overruns entries slots over
fill_slots-overruns (some ip ∷ entries) [] over = refl
fill_slots-overruns (some ip ∷ entries) (slot ∷ slots) over =
    rw (fill_slots-overruns entries slots (omega arith)) refl

-- The addresses have at most 15 bytes, and the array has ten slots. `get_local_ip` puts up to ten
-- addresses, the last interface's first, in front of what the array held behind them, and writes past
-- the array if there are more.
pub get_local_ip-addresses :
    (interfaces local_ip_list : List (Option Bytes))
    → AllShort (reverse interfaces)
    → length local_ip_list ≡ 10
    → get_local_ip (some interfaces) local_ip_list ≡ (
        if leb (length (addresses (reverse interfaces))) 10
        then some (
            map some (addresses (reverse interfaces))
            ++ drop (length (addresses (reverse interfaces))) local_ip_list)
        else none)
unfolding get_local_ip
get_local_ip-addresses interfaces local_ip_list short ten =
    let entries = reverse interfaces in
    let n = length (addresses entries) in
    elim (Bool-cases (leb n 10)) [
      | inl e ↦
          let low = leb→le n 10 e in
          rw e (fill_slots-fits entries local_ip_list short (omega arith))
      | inr e ↦
          let high : 10 < n = ground arith in
          rw e (fill_slots-overruns entries local_ip_list (omega arith))
    ]
