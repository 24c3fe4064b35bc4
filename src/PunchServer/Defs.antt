-- ===== src/PunchServer/Defs.antt =====
-- PunchTest/udp_server.c. `recvfrom` and `sendto` belong to the environment: a turn of the receiving
-- thread is given what arrived, and what is sent is logged.
use vpnp2p.Prelude.{
  ℕ, ◌-◌, Bool, true, false, Option, none, ℤ, some, List, [], ◌∷◌, ◌++◌, ltb, ◌==◌, if◌then◌else◌,
  length, take, drop, replicate,
}
use vpnp2p.CString.{Bytes, atoi, is_int}
use vpnp2p.Message.{c_string}
use vpnp2p.Punch.{Address}

-- The variables of the program; `log` has the calls of `sendto`, the first one first.
pub record Server : Type 0 where
  pub buf : Bytes
  pub threadflag : ℕ
  pub si_other : Address
  pub running : Bool
  pub log : List (Bytes × Address)

-- `init_program` with `PORT`, and the variables' first values.
abbrev pub init_program : ℕ → Server
init_program host = record {
  buf = replicate 512 0;
  threadflag = 0;
  si_other = record { host = host; port = 1 };
  running = true;
  log = [];
}

-- `strcpy(respond_string, argv[2])` into an array of 100 bytes.
unfoldable pub respond_string : Bytes → Option Bytes
respond_string argument =
    if ltb (length argument) 100
    then some (argument ++ replicate (100 - length argument) 0)
    else none

-- The arguments of `main`: the port and the string, or `none` if it prints how it is used. What is
-- undefined, a port that is no `int` or a string that is too long, is the outer `none`.
unfoldable pub main : List Bytes → Option (Option (ℤ × Bytes))
unfolding respond_string
main (program ∷ port ∷ send ∷ []) = elim (respond_string send) [
  | none ↦ none
  | some respond ↦ if is_int (atoi port) then some (some (atoi port, respond)) else none
]
main _ = some none

-- What `recvfrom` leaves in a buffer of 512 bytes.
abbrev pub overwrite : Bytes → Bytes → Bytes
overwrite packet buf = take 512 packet ++ drop (length (take 512 packet)) buf

-- One turn of `thread_receive_pack`, on a packet, or `none` if `recvfrom` fails. The result is `none`
-- if the buffer, which is printed as a string, holds none.
unfoldable pub thread_receive_pack : Bytes → Option (Bytes × Address) → Server → Option Server
thread_receive_pack respond none s = some s
thread_receive_pack respond (some (packet, from)) s =
    let heard = record s { buf = overwrite packet s.buf; si_other = from } in
    if s.threadflag == 1
    then some (record heard { running = false })
    else elim (c_string heard.buf) [
      | none ↦ none
      | some text ↦ some (record heard { log = s.log ++ (take 6 respond, from) ∷ [] })
    ]

-- The loop, over what arrives.
unfoldable pub receive_all : Bytes → List (Option (Bytes × Address)) → Server → Option Server
unfolding thread_receive_pack
receive_all respond [] s = some s
receive_all respond (packet ∷ packets) s = elim (thread_receive_pack respond packet s) [
  | none ↦ none
  | some s' ↦ if s'.running then receive_all respond packets s' else some s'
]
