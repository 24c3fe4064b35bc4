-- ===== src/Punch/Steps.antt =====
-- The threads of PunchTest/udp_client.c in steps, of which each reads or writes one of the variables that
-- they share. The steps of the threads come in any order; what is written is seen by all.
use vpnp2p.Prelude.{
  ℕ, ◌+◌, ◌-◌, ◌%◌, ◌^◌, Bool, true, false, not, Option, none, some, [], ◌∷◌, ◌++◌, ltb, ◌==◌, ◌≡◌,
  if◌then◌else◌, length,
}
use vpnp2p.CString.{Bytes}
use vpnp2p.Message.{c_string, is_string}
use vpnp2p.Punch.Defs.{
  Address, punched, beaten, Client, init_program, to_port, exit_if_flagged, count_time,
}

-- Where `thread_receive_pack` stands: at `recvfrom`, at `threadflag = 1` or at `heartbeat = 1`.
pub data Receiver : Type 0 where
  receiving flagging heartening : Receiver

-- Where `thread_punching` stands: at `sendto`, at the test of `if_print`, at `if_print = 0`, at the
-- choice of the port or at the test of `threadflag`.
pub data Puncher : Type 0 where
  sending testing_print clearing_print moving testing_flag : Puncher

-- `beating` says that `thread_heartbeat` has read a `heartbeat` of 1, and is about to send.
pub record Threads : Type 0 where
  pub client : Client
  pub receiver : Receiver
  pub beating : Bool
  pub puncher : Puncher

abbrev pub at_start : ℕ → Threads
at_start server = record {
  client = init_program server;
  receiver = receiving;
  beating = false;
  puncher = sending;
}

-- `recvfrom`, which fills `si_other`, and the comparison with `recv_string`.
unfoldable pub receive : Bytes → Option (Bytes × Address) → Threads → Option Threads
receive recv_string none t = some t
receive recv_string (some (packet, from)) t =
    let heard = record t { client = record t.client { si_other = from } } in
    if ltb (length packet) 128
    then if not (is_string (c_string (packet ++ 0 ∷ [])) recv_string)
      then some heard
      else some (record t {
        client = record t.client {
          si_other = from;
          receive_times = (t.client.receive_times + 1) % 2 ^ 16;
        };
        receiver = flagging;
      })
    else none

abbrev pub set_threadflag : Threads → Threads
set_threadflag t = record t { client = record t.client { threadflag = 1 }; receiver = heartening }

abbrev pub set_heartbeat : Threads → Threads
set_heartbeat t = record t { client = record t.client { heartbeat = 1 }; receiver = receiving }

abbrev pub test_heartbeat : Threads → Threads
test_heartbeat t = record t { beating = t.client.heartbeat == 1 }

abbrev pub beat : Threads → Threads
beat t = record t {
  client = record t.client {
    beat_times = (t.client.beat_times + 1) % 2 ^ 16;
    log = beaten t.client.si_other ∷ t.client.log;
  };
  beating = false;
}

-- Only the loop of a `type` other than 1 reads `if_print`.
abbrev pub punch : ℕ → Threads → Threads
punch type t = record t {
  client = record t.client {
    punch_times = (t.client.punch_times + 1) % 2 ^ 32;
    log = punched t.client.test_port ∷ t.client.log;
  };
  puncher = if type == 1 then moving else testing_print;
}

abbrev pub test_print : Threads → Threads
test_print t = record t { puncher = if t.client.if_print == 1 then clearing_print else moving }

abbrev pub clear_print : Threads → Threads
clear_print t = record t { client = record t.client { if_print = 0 }; puncher = moving }

abbrev pub next_port : ℕ → Client → Client
next_port type c =
    if type == 1
    then record c { test_port = to_port 9930 }
    else record c { test_port = to_port (65535 - c.cnt); cnt = (c.cnt + 1) % 65535 }

abbrev pub move : ℕ → Threads → Threads
move type t = record t { client = next_port type t.client; puncher = testing_flag }

abbrev pub test_flag : Threads → Threads
test_flag t = record t { client = exit_if_flagged t.client; puncher = sending }

unfoldable pub count : Threads → Threads
unfolding count_time
count t = record t { client = count_time t.client }

-- One step of one thread. The thread that punches takes steps until it has ended.
pub data Step (recv_string : Bytes) (type : ℕ) : Threads → Threads → Type 0 where
  receives :
      (packet : Option (Bytes × Address)) (t u : Threads)
      → t.receiver ≡ receiving
      → receive recv_string packet t ≡ some u
      → Step recv_string type t u
  flags : (t : Threads) → t.receiver ≡ flagging → Step recv_string type t (set_threadflag t)
  heartens : (t : Threads) → t.receiver ≡ heartening → Step recv_string type t (set_heartbeat t)
  tests_heartbeat : (t : Threads) → t.beating ≡ false → Step recv_string type t (test_heartbeat t)
  beats : (t : Threads) → t.beating ≡ true → Step recv_string type t (beat t)
  punches :
      (t : Threads)
      → t.client.punching ≡ true
      → t.puncher ≡ sending
      → Step recv_string type t (punch type t)
  tests_print : (t : Threads) → t.puncher ≡ testing_print → Step recv_string type t (test_print t)
  clears_print :
      (t : Threads) → t.puncher ≡ clearing_print → Step recv_string type t (clear_print t)
  moves : (t : Threads) → t.puncher ≡ moving → Step recv_string type t (move type t)
  tests_flag : (t : Threads) → t.puncher ≡ testing_flag → Step recv_string type t (test_flag t)
  counts : (t : Threads) → Step recv_string type t (count t)

-- Steps one after the other.
pub data Steps (recv_string : Bytes) (type : ℕ) : Threads → Threads → Type 0 where
  rest : (t : Threads) → Steps recv_string type t t
  more :
      (t u v : Threads)
      → Steps recv_string type t u
      → Step recv_string type u v
      → Steps recv_string type t v
