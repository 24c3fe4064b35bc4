-- ===== src/NodeInfo/Heap.antt =====
-- The store of the `struct IP` and `struct Node` objects of NodeInfo/node_info.h, and the commands
-- that the functions of NodeInfo/node_info.c are written in. What `malloc` returns holds whatever
-- stood there: the contents of the addresses that are not yet allocated are arbitrary.
use vpnp2p.Prelude.{ℕ, ◌+◌, Bool, not, ◌&&◌, ℤ, ltb, ◌==◌, if◌then◌else◌, length}
use vpnp2p.CString.{Bytes}
use vpnp2p.NodeInfo.Values.{Ip}

abbrev pub Ptr : Type 0
Ptr = ℕ

abbrev pub null : Ptr
null = 0

-- `struct IP`
pub record IpCell : Type 0 where
  pub info : Ip
  pub open info use *
  pub next_ip : Ptr

-- `struct Node`
pub record NodeCell : Type 0 where
  pub id : ℤ
  pub node_count : ℤ
  pub reliable : ℤ
  pub ip_list : Ptr
  pub next_node : Ptr

-- `brk` is the address that the next `malloc` returns; memory does not run out.
pub record Heap : Type 0 where
  pub ips : Ptr → IpCell
  pub nodes : Ptr → NodeCell
  pub brk : Ptr

-- The undefined behaviours that the code can meet, and the end of the fuel.
pub data Fault : Type 0 where
  bad_pointer out_of_bounds unterminated indeterminate int_overflow bad_transfer out_of_fuel : Fault

pub data Run (A : Type 0) : Type 0 where
  ok : A → Heap → Run A
  fault : Fault → Run A

abbrev pub Cmd : Type 0 → Type 0
Cmd A = Heap → Run A

abbrev pub and_then : {A B : Type 0} → Run A → (A → Cmd B) → Run B
and_then (ok a h) f = f a h
and_then (fault e) f = fault e

abbrev pub pure : {A : Type 0} → A → Cmd A
pure a h = ok a h

abbrev pub fail : {A : Type 0} → Fault → Cmd A
fail e h = fault e

infixl 5 ◌>>=◌ ◌>>◌
abbrev pub ◌>>=◌ : {A B : Type 0} → Cmd A → (A → Cmd B) → Cmd B
◌>>=◌ m f h = and_then (m h) f

abbrev pub ◌>>◌ : {B : Type 0} → Cmd (Unit {0}) → Cmd B → Cmd B
m >> k = m >>= λ _. k

abbrev pub update {ℓ} : {A : Type ℓ} → (Ptr → A) → Ptr → A → Ptr → A
update f p v q = if q == p then v else f q

-- A pointer that may be followed: not `NULL`, and to an allocated object.
unfoldable pub is_valid : Ptr → Heap → Bool
is_valid p h = not (p == null) && ltb p h.brk

unfoldable pub load_ip : Ptr → Cmd IpCell
load_ip p h = if is_valid p h then ok (h.ips p) h else fault bad_pointer

unfoldable pub load_node : Ptr → Cmd NodeCell
load_node p h = if is_valid p h then ok (h.nodes p) h else fault bad_pointer

unfoldable pub store_ip : Ptr → IpCell → Cmd (Unit {0})
store_ip p c h =
    if is_valid p h then ok tt (record h { ips = update h.ips p c }) else fault bad_pointer

unfoldable pub store_node : Ptr → NodeCell → Cmd (Unit {0})
store_node p c h =
    if is_valid p h then ok tt (record h { nodes = update h.nodes p c }) else fault bad_pointer

-- `malloc(sizeof(struct IP))` and `malloc(sizeof(struct Node))`
unfoldable pub malloc : Cmd Ptr
malloc h = ok h.brk (record h { brk = h.brk + 1 })

-- A `struct IP` that is declared in a block: it stands behind all objects, and ceases to exist at the
-- end of the block. The block does not call `malloc`.
unfoldable pub in_block : {A : Type 0} → (Ptr → Cmd A) → Cmd A
in_block block h =
    and_then (block h.brk (record h { brk = h.brk + 1 })) (λ a h'. ok a (record h' { brk = h.brk }))

-- `strcpy` into an array of `n` bytes.
unfoldable pub copy_into : ℕ → Bytes → Cmd Bytes
copy_into n s = if ltb (length s) n then pure s else fail out_of_bounds
