-- ===== src/Pairs.antt =====
-- NodeInfo/node_pair.c and NodeInfo/node_pair.h: pairs of nodes, and what is measured between them.
use vpnp2p.Prelude.{ℕ, ◌+◌, ℤ, pos, eq_ℤ, ltb, if◌then◌else◌}
use vpnp2p.NodeInfo.Heap.{Fault, Ptr, out_of_bounds, update}

-- What a function of CronJob/node_cron_job.c comes to; the program can exit or fail an assertion.
pub data Result (A : Type 0) : Type 0 where
  done : A → Result A
  exits aborts : Result A
  faults : Fault → Result A

infixl 5 ◌>>=◌
abbrev pub ◌>>=◌ : {A B : Type 0} → Result A → (A → Result B) → Result B
done a >>= f = f a
exits >>= f = exits
aborts >>= f = aborts
faults e >>= f = faults e

-- `struct NodePair`. The string `to_ip` is that of a `struct IP`, and is given by its address.
pub record NodePair : Type 0 where
  pub from_node : Ptr
  pub to_node : Ptr
  pub to_ip : Ptr

-- `(512.0 / z) * 1000`, before rounding.
pub data Width : Type 0 where
  infinite : Width
  kb_per_s : ℤ → Width

abbrev pub width_over : ℤ → Width
width_over z = if eq_ℤ z (pos 0) then infinite else kb_per_s z

-- `struct WidthAndDelay`
pub record WidthAndDelay : Type 0 where
  pub delay : ℤ
  pub width : Width

-- The objects that the two functions make; `brk` is the address that the next `malloc` returns.
pub record Objects : Type 0 where
  pub pairs : Ptr → NodePair
  pub widths : Ptr → WidthAndDelay
  pub brk : Ptr

-- Both functions ask `malloc` for the size of a pointer, 8, and fill structs of 24 and 16 bytes. `room`
-- says how many bytes can be used in a block of the size that was asked for.
unfoldable pub create_node_pair : (ℕ → ℕ) → Ptr → Ptr → Ptr → Objects → Result (Ptr × Objects)
create_node_pair room from_node to_node to_ip o =
    let pair : NodePair = record { from_node = from_node; to_node = to_node; to_ip = to_ip } in
    if ltb (room 8) 24
    then faults out_of_bounds
    else done (o.brk, record o { pairs = update o.pairs o.brk pair; brk = o.brk + 1 })

unfoldable pub create_width_delay : (ℕ → ℕ) → ℤ → Width → Objects → Result (Ptr × Objects)
create_width_delay room delay width o =
    let w : WidthAndDelay = record { delay = delay; width = width } in
    if ltb (room 8) 16
    then faults out_of_bounds
    else done (o.brk, record o { widths = update o.widths o.brk w; brk = o.brk + 1 })
