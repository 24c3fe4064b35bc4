-- ===== src/Tests/Messages.antt =====
-- The theorems on Util/message.c, server.c and PunchTest/udp_client.c, at short messages.
use vpnp2p.Prelude.{
  ℕ, suc, ◌≤◌, ◌≡◌, ◌≢◌, refl, ap, Option, none, some, List, ◌∷◌, pos, length, take, arith,
}
use vpnp2p.CString.{Bytes, codes, str_eq}
use vpnp2p.Message.Transfer.{all_succeed, arrive, recv_msg-send_msg, recv_msg_unterminated}
use vpnp2p.Message.{
  Message, done, undefined, register, width_test, width_test_return, file_size, with_nul, c_string,
  recv_file, recv_pieces, holds, send_msg_over_socket, recv_msg_over_socket,
}
use vpnp2p.Punch.Ports.{after, every_port}
use vpnp2p.Punch.{Send, punched, init_program}
use vpnp2p.Server.Dispatch.{dispatch-never_width_test}
use vpnp2p.Server.{dispatch, width_test_handler, type_array}

abbrev hello : Message
hello = record { type = type_array register; buf = codes "NODE"; size = pos 5 }

abbrev cut_off : Message
cut_off = record { type = type_array register; buf = codes "NODE"; size = pos 4 }

register-c_string : c_string (take 20 (type_array register)) ≡ some register
unfolding c_string
register-c_string = refl

register-ne : register ≢ width_test
register-ne e = cc

recv_msg-send_msg_example :
    (pieces : List Bytes) × (send_msg_over_socket all_succeed hello ≡ done (pieces, pos 0))
    × (recv_msg_over_socket (arrive pieces)
        ≡ done (record { type = with_nul register; buf = codes "NODE"; size = pos 5 }))
recv_msg-send_msg_example =
    recv_msg-send_msg hello register register-c_string register-ne refl (omega arith) refl

recv_msg_unterminated_example :
    (pieces : List Bytes) × (send_msg_over_socket all_succeed cut_off ≡ done (pieces, pos 0))
    × (recv_msg_over_socket (arrive pieces) ≡ undefined)
recv_msg_unterminated_example =
    recv_msg_unterminated cut_off register register-c_string register-ne refl (omega arith) refl

abbrev width_request : ℕ → Option Bytes
width_request i = some (take 20 (type_array width_test))

abbrev width_message : Message
width_message = record {
  type = with_nul width_test_return;
  buf = width_test_return;
  size = pos file_size;
}

width_request-received : recv_msg_over_socket width_request ≡ done width_message
unfolding recv_msg_over_socket recv_pieces recv_file holds c_string str_eq
width_request-received = refl

width_request-short : (msg_type : Bytes) → width_request 1 ≡ some msg_type → length msg_type ≤ 20
width_request-short msg_type e =
    let n : 20 ≡ length msg_type = ap (λ o. elim o [ none ↦ 0 | some b ↦ length b ]) e in
    omega arith

dispatch-never_width_test_example : dispatch width_message ≢ width_test_handler
dispatch-never_width_test_example =
    dispatch-never_width_test width_request width_message width_request-short width_request-received

every_port_example :
    (n : ℕ) × (n ≤ 65535)
    × (rest : List Send) × ((after (suc n) (init_program 0)).log ≡ punched 9930 ∷ rest)
every_port_example = every_port 9930 0 (omega arith) (omega arith)
