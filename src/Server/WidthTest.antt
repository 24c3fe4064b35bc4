-- ===== src/Server/WidthTest.antt =====
-- What server.c does with a width test.
use vpnp2p.Prelude.{ℕ, ◌≤◌, ◌≡◌, Bool, true, Option, List, pos, length, refl}
use vpnp2p.CString.{Bytes, str_eq}
use vpnp2p.Message.Transfer.{all_succeed, arrive}
use vpnp2p.Message.WidthTest.{send_file_over_socket, recv_msg-send_file}
use vpnp2p.Message.{done, file_size, width_test_return, with_nul, c_string, holds}
use vpnp2p.NodeInfo.Heap.{Heap, ok}
use vpnp2p.Server.Defs.{dispatch, ignored, handle, received_turn, thread_receive_pack, no_handler}

dispatch-width_test :
    dispatch
      (record { type = with_nul width_test_return; buf = width_test_return; size = pos file_size })
    ≡ no_handler
unfolding dispatch holds c_string str_eq
dispatch-width_test = refl

-- A width test is sent by `send_file_over_socket`, 9 bytes can be read behind the literal, every
-- `send` succeeds and every piece arrives whole. The turn of `thread_receive_pack` on it answers
-- nothing.
pub thread_receive_pack-width_test :
    (fuel : ℕ) (opens : Bool) (file : Option Bytes) (behind big_buf : Bytes) (h : Heap)
    → 9 ≤ length behind
    → (pieces : List Bytes) × (send_file_over_socket behind big_buf all_succeed
        ≡ done (pieces, pos 0))
      × (thread_receive_pack fuel opens true (arrive pieces) file h ≡ ok ignored h)
unfolding thread_receive_pack received_turn
thread_receive_pack-width_test fuel opens file behind big_buf h room =
    let (pieces, sent, received) = recv_msg-send_file behind big_buf room in
    (pieces, sent, rw received (rw dispatch-width_test (unfold handle in refl)))
