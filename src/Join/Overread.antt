-- ===== src/Join/Overread.antt =====
-- How `join` of JoinTest/node_join.c ends: it reads the address of the server as a `struct Node`.
use vpnp2p.Prelude.{
  ℕ, ◌<◌, ◌≡◌, ◌≢◌, refl, Bool, true, Option, none, some, List, [], ◌∷◌, ◌++◌, arith, ltb, length,
  length-append,
}
use vpnp2p.CString.{Bytes}
use vpnp2p.Join.Cluster.{
  Contact, open_cluster, check_cache, pointer_in_string, visit_string, join_server, join,
}
use vpnp2p.Join.Defs.{register_node}
use vpnp2p.Join.Serves.{Serves}
use vpnp2p.NodeInfo.Heap.{
  Ptr, Heap, Run, Cmd, ok, fault, out_of_bounds, and_then, pure, ◌>>=◌, malloc,
}
use vpnp2p.NodeInfo.Merge.{node_merge}

-- No run of the command ends in a value that has the property.
abbrev Never : {B : Type 0} → (B → Type 0) → Cmd B → Type 0
Never {B} P m = (b : B) (h h' : Heap) → m h ≡ ok b h' → P b → ⊥

abbrev Always : {B : Type 0} → B → Type 0
Always b = Unit {0}

then-Never :
    {A B : Type 0} (P : B → Type 0) (r : Run A) (k : A → Cmd B) (b : B) (h' : Heap)
    → ((a : A) → Never P (k a))
    → and_then r k ≡ ok b h'
    → P b
    → ⊥
then-Never P (ok a h) k b h' never e p = never a b h h' e p
then-Never P (fault f) k b h' never e p = cc

bind-Never :
    {A B : Type 0} (P : B → Type 0) (m : Cmd A) (k : A → Cmd B)
    → ((a : A) → Never P (k a))
    → Never P (m >>= k)
bind-Never P m k never b h h' e p = then-Never P (m h) k b h' never e p

first_then-Never :
    {A B : Type 0} (P : B → Type 0) (r : Run A) (k : A → Cmd B) (b : B) (h' : Heap)
    → ((a : A) (g : Heap) → r ≢ ok a g)
    → and_then r k ≡ ok b h'
    → ⊥
first_then-Never P (ok a h) k b h' never e = never a h refl
first_then-Never P (fault f) k b h' never e = cc

-- What stands first does not end.
first-Never :
    {A B : Type 0} (P : B → Type 0) (m : Cmd A) (k : A → Cmd B) → Never Always m → Never P (m >>= k)
first-Never P m k never b h h' e p = first_then-Never P (m h) k b h' (λ a g q. never a h g q tt) e

abbrev IsSome : {A : Type 0} → Option A → Type 0
IsSome none = ⊥
IsSome (some a) = Unit {0}

none-Never : {A : Type 0} → Never (IsSome {A = A}) (pure none)
none-Never none h h' e p = p
none-Never (some a) h h' e p = cc

module _ (server_ip : Bytes) (short : length server_ip < 23) where
  -- The string and its NUL end before the field `ip_list` does.
  ip_list-overrun : (h : Heap) → pointer_in_string server_ip 16 h ≡ fault out_of_bounds
  unfolding pointer_in_string
  ip_list-overrun h =
      let size = length-append server_ip (0 ∷ []) in
      let outside : ltb (length (server_ip ++ 0 ∷ [])) 24 ≡ true = ground arith in rw outside refl

  visit_string-overrun :
      (peers rechecks : ℕ → Contact) (opens : Bool) (fuel : ℕ) (local_node : Ptr) (i : ℕ)
      (file : Option Bytes) (h : Heap)
      → visit_string peers rechecks opens fuel server_ip local_node i file h ≡ fault out_of_bounds
  unfolding visit_string
  visit_string-overrun peers rechecks opens fuel local_node i file h = rw (ip_list-overrun h) refl

  visit_string-Never :
      (peers rechecks : ℕ → Contact) (opens : Bool) (fuel : ℕ) (local_node : Ptr) (i : ℕ)
      (file : Option Bytes)
      → Never Always (visit_string peers rechecks opens fuel server_ip local_node i file)
  visit_string-Never peers rechecks opens fuel local_node i file b h h' e p =
      let end = visit_string-overrun peers rechecks opens fuel local_node i file h in cc

  join_server-Never :
      (peers rechecks : ℕ → Contact) (opens : Bool) (fuel : ℕ) (local_node : Ptr) (text : Bytes)
      (server_node : Ptr)
      → Never IsSome (join_server peers rechecks opens fuel server_ip local_node text server_node)
  unfolding join_server
  join_server-Never peers rechecks opens fuel local_node text server_node =
      bind-Never IsSome (node_merge fuel local_node server_node) _ (λ merged.
        bind-Never IsSome malloc _ (λ tmp_node.
          first-Never IsSome
            (visit_string peers rechecks opens fuel server_ip local_node 1 (some text)) _
            (visit_string-Never peers rechecks opens fuel local_node 1 (some text))))

  registered-Never :
      (peers rechecks : ℕ → Contact) (opens : Bool) (fuel : ℕ) (node : Ptr)
      (got : Option (Bytes × Ptr))
      → Never (IsSome {A = Option Bytes}) (elim got [
        | none ↦ pure none
        | some (text, server_node) ↦
            join_server peers rechecks opens fuel server_ip node text server_node
      ])
  registered-Never peers rechecks opens fuel node none = none-Never
  registered-Never peers rechecks opens fuel node (some (text, server_node)) =
      join_server-Never peers rechecks opens fuel node text server_node

-- The address of the server has at most 22 bytes. Then `join` does not return, whatever the file,
-- `local_node`, the peers and its other arguments are: it exits, or meets a fault.
pub join-never_returns :
    (peers rechecks : ℕ → Contact) (opens : Bool) (fuel r : ℕ) (slots : List (Option Bytes))
    (server_ip : Bytes) (use_cache : Bool) (local_node : Ptr) (file file' : Option Bytes)
    (h h' : Heap)
    → length server_ip < 23
    → join peers rechecks opens fuel r slots server_ip use_cache local_node file h
      ≢ ok (some file') h'
unfolding join
join-never_returns peers rechecks opens fuel r slots server_ip use_cache local_node file file' h h'
      short e =
    bind-Never IsSome (open_cluster fuel opens r slots local_node file) _
      (λ opened.
        bind-Never IsSome (check_cache fuel opens slots use_cache opened.0 opened.1) _ (λ file₂.
          bind-Never IsSome
            (register_node opens (peers 0).connects (peers 0).succeeds (peers 0).answers file₂) _
            (registered-Never server_ip short peers rechecks opens fuel opened.0)))
      (some file') h h' e tt
