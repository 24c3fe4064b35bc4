-- ===== src/Tests/Punches.antt =====
-- The theorems on PunchTest/udp_server.c, at two packets and a failed `recvfrom`, and on the threads of
-- PunchTest/udp_client.c, at a state between the assignments of the two flags.
use vpnp2p.Prelude.{◌≡◌, refl, true, false, none, some, Option, List, [], ◌∷◌, take, arith, pos}
use vpnp2p.CString.{str_eq, Bytes, codes, atoi, atoi_signed, digits_value, is_int}
use vpnp2p.Message.{c_string}
use vpnp2p.Punch
use vpnp2p.Punch.Arguments
use vpnp2p.Punch.Arguments.{
  started, usage, connect_client, connect_server, int_argument, string_argument,
}
use vpnp2p.Punch.Steps.{
  Threads, at_start, receive, set_threadflag, punch, move, test_flag, receives, flags, punches,
  moves, tests_flag, Steps, rest, more,
}
use vpnp2p.Punch.Threads.{heard_string, Flags, Steps-Flags}
use vpnp2p.PunchServer
use vpnp2p.Punch.Turns.{flagged}
use vpnp2p.Punch.{Address, Client}
use vpnp2p.PunchServer.Answers.{answers, receive_all-answers_flag}
use vpnp2p.PunchServer.{Server, init_program, respond_string, receive_all}

abbrev peer : Address
peer = record { host = 9; port = 9930 }

abbrev packets : List (Option (Bytes × Address))
packets = some (codes "hi", peer) ∷ none ∷ some ([], record peer { port = 5 }) ∷ []

receive_all-answers_flag_example :
    (respond : Bytes) × (s : Server) × (respond_string (codes "hole") ≡ some respond)
    × (receive_all respond packets (init_program 8) ≡ some s)
    × (s.running ≡ true)
    × (s.log ≡ answers (take 6 respond) packets)
    × ((from : Address) (c : Client)
        → Punch.thread_receive_pack (codes "hole") (some (take 6 respond, from)) c
          ≡ some (flagged from c))
receive_all-answers_flag_example =
    receive_all-answers_flag (codes "hole") 8 packets (omega arith) refl
      (omega arith, (omega arith, tt))

settings_run :
    Arguments.main
      (codes "udp" ∷ codes "2" ∷ codes "10.0.0.1" ∷ codes "50" ∷ codes "hi" ∷ codes "hole" ∷ [])
    ≡ some (
        started (record {
          type = pos 2;
          srv_ip = codes "10.0.0.1";
          server_port = pos 0;
          usleep_time = pos 50;
          send_string = codes "hi";
          recv_string = codes "hole";
        }))
unfolding Arguments.main connect_server int_argument string_argument atoi atoi_signed digits_value
    is_int
settings_run = refl

-- One argument is too few for either type.
usage_run : Arguments.main (codes "udp" ∷ codes "1" ∷ []) ≡ some usage
unfolding Arguments.main connect_client int_argument atoi atoi_signed digits_value is_int
usage_run = refl

server_run : PunchServer.main (codes "udp" ∷ codes "9930" ∷ []) ≡ some none
unfolding PunchServer.main
server_run = refl

-- The thread that punches ends between the two assignments: its loop of type 1 reads `threadflag`
-- while `heartbeat` is still 0.
abbrev flag_set : Threads
flag_set = set_threadflag (heard_string peer (at_start 8))

abbrev in_gap : Threads
in_gap = test_flag (move 1 (punch 1 flag_set))

in_gap-Steps : Steps (codes "hole") 1 (at_start 8) in_gap
unfolding receive c_string str_eq
in_gap-Steps =
    more (at_start 8) (move 1 (punch 1 flag_set)) in_gap
      (more (at_start 8) (punch 1 flag_set) (move 1 (punch 1 flag_set))
        (more (at_start 8) flag_set (punch 1 flag_set)
          (more (at_start 8) (heard_string peer (at_start 8)) flag_set
            (more (at_start 8) (at_start 8) (heard_string peer (at_start 8)) (rest (at_start 8)) (
              receives (some (codes "hole", peer)) (at_start 8) (heard_string peer (at_start 8))
                refl refl))
            (flags (heard_string peer (at_start 8)) refl))
          (punches flag_set refl refl))
        (moves (punch 1 flag_set) refl))
      (tests_flag (move 1 (punch 1 flag_set)) refl)

in_gap_run :
    (in_gap.client.punching ≡ false)
    × (in_gap.client.threadflag ≡ 1)
    × (in_gap.client.heartbeat ≡ 0)
in_gap_run = (refl, refl, refl)

Steps-Flags_example : Flags in_gap
Steps-Flags_example = Steps-Flags (codes "hole") 1 8 in_gap in_gap-Steps
