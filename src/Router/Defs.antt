-- ===== src/Router/Defs.antt =====
-- `router_refresh` of CronJob/node_cron_job.c. The sockets and the clock belong to the environment.
use vpnp2p.Prelude.{
  ℕ, zero, suc, ◌+◌, ◌-◌, ◌/◌, ◌%◌, ◌*◌, ◌^◌, Bool, not, ◌&&◌, Option, none, some, List, ℤ, pos,
  negsuc, of_parts, sub_ℤ, ltb, ◌==◌, if◌then◌else◌,
}
use vpnp2p.CString.{Bytes, is_int}
use vpnp2p.Message.WidthTest.{send_file_over_socket}
use vpnp2p.Message.{Message, regular_update, with_nul, send_msg_over_socket, recv_msg_over_socket}
use vpnp2p.Message
use vpnp2p.NodeInfo.Compare.{count_ips}
use vpnp2p.NodeInfo.Heap.{
  Ptr, null, Heap, Run, ok, fault, load_ip, load_node, bad_transfer, bad_pointer, int_overflow,
  indeterminate, out_of_fuel,
}
use vpnp2p.Pairs.{
  Result, done, exits, aborts, faults, ◌>>=◌, Objects, width_over, create_node_pair,
  create_width_delay,
}
use vpnp2p.Table.{Table, Table_new, Table_put, Table_get}
use vpnp2p.Table

-- What the machine has behind the ends of objects: the bytes of a block that `malloc` returns, and
-- those that can be read behind the literal of `send_file_over_socket`; and that function's array.
pub record Machine : Type 0 where
  pub room : ℕ → ℕ
  pub behind : Bytes
  pub big_buf : Bytes

-- One connection: whether the socket is made and connected, which `send` succeeds, the answers to
-- `recv`, and the two values of `clock()`.
pub record Exchange : Type 0 where
  pub opens : Bool
  pub connects : Bool
  pub succeeds : ℕ → Bool
  pub answers : ℕ → Option Bytes
  pub start : ℤ
  pub finish : ℤ

-- The two connections to an address, and what stands in the size of the first message, which is
-- never set.
pub record Probe : Type 0 where
  pub update : Exchange
  pub width : Exchange
  pub unset_size : ℤ

abbrev pub from_run : {A : Type 0} → Run A → Result A
from_run (ok a h) = done a
from_run (fault e) = faults e

abbrev pub from_table : {A : Type 0} → Table.Outcome A → Result A
from_table (Table.done a) = done a
from_table Table.assertion_failed = aborts
from_table Table.undefined = faults bad_pointer

abbrev pub check_sent : Message.Outcome (List Bytes × ℤ) → Result (Unit {0})
check_sent (Message.done (pieces, pos n)) = done tt
check_sent (Message.done (pieces, negsuc n)) = exits
check_sent Message.failed = exits
check_sent Message.undefined = faults bad_transfer

abbrev pub check_received : Message.Outcome Message → Result (Unit {0})
check_received (Message.done m) = done tt
check_received Message.failed = exits
check_received Message.undefined = faults bad_transfer

-- Connecting, sending and waiting for the reply.
unfoldable pub exchange : Exchange → Message.Outcome (List Bytes × ℤ) → Result (Unit {0})
exchange x sent =
    if not (x.opens && x.connects)
    then exits
    else do tt ← check_sent sent; check_received (recv_msg_over_socket x.answers)

-- `(int) z`
unfoldable pub to_int : ℤ → ℤ
to_int (pos n) = let m = n % 2 ^ 32 in if ltb m (2 ^ 31) then pos m else negsuc (2 ^ 32 - m - 1)
to_int (negsuc n) = let m = n % 2 ^ 32 in if ltb m (2 ^ 31) then negsuc m else pos (2 ^ 32 - m - 1)

unfoldable pub duration : Exchange → ℤ
unfolding to_int
duration x = to_int (sub_ℤ x.finish x.start)

-- `duration / 2`, which rounds towards 0.
unfoldable pub half : ℤ → ℤ
half (pos n) = pos (n / 2)
half (negsuc n) = of_parts 0 ((n + 1) / 2)

-- `duration - delay * 2`
abbrev pub twice : ℤ → ℤ
twice (pos n) = pos (n * 2)
twice (negsuc n) = negsuc (n * 2 + 1)

unfoldable pub width_divisor : ℤ → ℤ → Result ℤ
width_divisor duration delay =
    let z = sub_ℤ duration (twice delay) in if is_int z then done z else faults int_overflow

-- The body of the loop, on the address `to_ip`: the pair that was made.
unfoldable pub measure :
    Machine → Ptr → Ptr → Ptr → Probe → Objects → Table → Result (Ptr × Objects × Table)
unfolding exchange duration half width_divisor
measure m from_node to_node to_ip x o t = do
  let msg : Message = record {
    type = with_nul regular_update;
    buf = regular_update;
    size = x.unset_size;
  }
  tt ← exchange x.update (send_msg_over_socket x.update.succeeds msg)
  let delay = half (duration x.update)
  (pair, o) ← create_node_pair m.room from_node to_node to_ip o
  tt ← exchange x.width (send_file_over_socket m.behind m.big_buf x.width.succeeds)
  divisor ← width_divisor (duration x.width) delay
  (w, o) ← create_width_delay m.room delay (width_over divisor) o
  (prev, t) ← from_table (Table_put m.room t pair w)
  done (pair, o, t)

-- The loop from `p` on, at its turn `i`; `tmp_pair` has no value before the first turn.
unfoldable pub refresh_ips :
    Machine
    → Heap
    → Ptr
    → Ptr
    → (ℕ → Probe)
    → ℕ
    → ℕ
    → Ptr
    → Option Ptr
    → Objects
    → Table
    → Result (Option Ptr × Objects × Table)
unfolding measure
refresh_ips m h from_node to_node probes zero i p tmp_pair o t = faults out_of_fuel
refresh_ips m h from_node to_node probes (suc fuel) i p tmp_pair o t =
    if p == null then done (tmp_pair, o, t) else do
      c ← from_run (load_ip p h)
      (pair, o, t) ← measure m from_node to_node p (probes i) o t
      refresh_ips m h from_node to_node probes fuel (i + 1) c.next_ip (some pair) o t

abbrev pub initialised : Option Ptr → Result Ptr
initialised none = faults indeterminate
initialised (some p) = done p

-- The value that is printed, by its address, and the objects and the table. The loop that measures the
-- list is that of `ip_list_length`.
unfoldable pub router_refresh :
    Machine → ℕ → Heap → Ptr → Ptr → (ℕ → Probe) → Objects → Result (Ptr × Objects × Table)
unfolding refresh_ips
router_refresh m fuel h from_node to_node probes o = do
  c ← from_run (load_node to_node h)
  length ← from_run (count_ips fuel 0 c.ip_list h)
  t ← from_table (Table_new (pos length) none none)
  (tmp_pair, o, t) ← refresh_ips m h from_node to_node probes fuel 0 c.ip_list none o t
  key ← initialised tmp_pair
  value ← from_table (Table_get t key)
  if value == null then faults bad_pointer else done (value, o, t)
