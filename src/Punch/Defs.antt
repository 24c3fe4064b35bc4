-- ===== src/Punch/Defs.antt =====
-- The threads of PunchTest/udp_client.c: one turn of each thread's loop, as it is when no other thread
-- runs meanwhile. `recvfrom` and `sendto` belong to the environment: a turn of the receiving
-- thread is given what arrived, and what is sent is logged.
use vpnp2p.Prelude.{
  ℕ, ◌+◌, ◌-◌, ◌%◌, ◌^◌, Bool, true, not, Option, none, some, List, [], ◌∷◌, ◌++◌, ltb, ◌==◌,
  if◌then◌else◌, length,
}
use vpnp2p.CString.{Bytes}
use vpnp2p.Message.{c_string, is_string}

-- `struct sockaddr_in`: address and port.
pub record Address : Type 0 where
  pub host : ℕ
  pub port : ℕ

pub data Send : Type 0 where
  punched : ℕ → Send
  beaten : Address → Send

-- The variables of the program and of its threads. `test_port` is the port of `test_other`, in host
-- order; `log` has the calls of `sendto`, the last one first.
pub record Client : Type 0 where
  pub threadflag : ℕ
  pub heartbeat : ℕ
  pub if_print : ℕ
  pub si_other : Address
  pub test_port : ℕ
  pub cnt : ℕ
  pub punch_times : ℕ
  pub beat_times : ℕ
  pub receive_times : ℕ
  pub clock_times : ℕ
  pub punching : Bool
  pub log : List Send

-- `init_program` with `PORT`, and the variables' first values.
abbrev pub init_program : ℕ → Client
init_program server = record {
  threadflag = 0;
  heartbeat = 0;
  if_print = 1;
  si_other = record { host = server; port = 65535 };
  test_port = 65535;
  cnt = 0;
  punch_times = 0;
  beat_times = 0;
  receive_times = 0;
  clock_times = 0;
  punching = true;
  log = [];
}

-- `htons` of an `int`, as the port in host order.
abbrev pub to_port : ℕ → ℕ
to_port n = n % 2 ^ 16

unfoldable pub thread_heartbeat : Client → Client
thread_heartbeat c =
    if c.heartbeat == 1
    then record c { beat_times = (c.beat_times + 1) % 2 ^ 16; log = beaten c.si_other ∷ c.log }
    else c

-- A packet, or `none` if `recvfrom` fails. The result is `none` if `tempbuf` is too small for it;
-- `recvfrom` fills at most the 512 bytes of `buf`.
unfoldable pub thread_receive_pack : Bytes → Option (Bytes × Address) → Client → Option Client
thread_receive_pack recv_string none c = some c
thread_receive_pack recv_string (some (packet, from)) c =
    let heard = record c { si_other = from } in
    if ltb (length packet) 128
    then if not (is_string (c_string (packet ++ 0 ∷ [])) recv_string)
      then some heard
      else some (record heard {
        receive_times = (c.receive_times + 1) % 2 ^ 16;
        threadflag = 1;
        heartbeat = 1;
      })
    else none

-- `if(1 == threadflag) pthread_exit(NULL)`
abbrev pub exit_if_flagged : Client → Client
exit_if_flagged c = record c { punching = not (c.threadflag == 1) }

-- The two loops of `thread_punching`, for `type == 1` and otherwise.
unfoldable pub punch_client : Client → Client
punch_client c = exit_if_flagged (record c {
  punch_times = (c.punch_times + 1) % 2 ^ 32;
  log = punched c.test_port ∷ c.log;
  test_port = to_port 9930;
})

-- `cnt` is below 65535, so that `PORT - cnt` is not negative.
unfoldable pub punch_server : Client → Client
punch_server c = exit_if_flagged (record c {
  punch_times = (c.punch_times + 1) % 2 ^ 32;
  log = punched c.test_port ∷ c.log;
  if_print = if c.if_print == 1 then 0 else c.if_print;
  test_port = to_port (65535 - c.cnt);
  cnt = (c.cnt + 1) % 65535;
})

unfoldable pub thread_punching : ℕ → Client → Client
unfolding punch_client punch_server
thread_punching type c = if type == 1 then punch_client c else punch_server c

unfoldable pub count_time : Client → Client
count_time c =
    let times = (c.clock_times + 1) % 2 ^ 16 in
    record c { clock_times = times; if_print = if times % 15 == 0 then 1 else 0 }
