-- ===== src/Server/Turn.antt =====
-- One turn of `thread_receive_pack` of server.c, from the bytes on the socket to the reply.
use vpnp2p.Prelude.{
  ℕ, ◌+◌, ◌≤◌, ◌<◌, ◌≡◌, ◌≢◌, refl, ◌∙◌, true, false, Option, some, List, ◌∷◌, pos, length, take,
}
use vpnp2p.CString.{Bytes, codes, str_eq}
use vpnp2p.Message.Bytes.{has_nul}
use vpnp2p.Message.Transfer.{all_succeed, arrive, recv_msg-send_msg}
use vpnp2p.Message.{
  Message, done, buf_size, register, r_register, width_test, with_nul, c_string, holds,
  send_msg_over_socket,
}
use vpnp2p.NodeInfo.Heap.{Heap, ok}
use vpnp2p.NodeInfo.Merge.Spec.{merge}
use vpnp2p.NodeInfo.Parse.BufLines.{buf_limits}
use vpnp2p.NodeInfo.Parse.FileLines.{file_limits}
use vpnp2p.NodeInfo.Parse.ReadNodes.{AllNodesFit}
use vpnp2p.NodeInfo.Print.Render.{node_lines, render, cells}
use vpnp2p.NodeInfo.Values.{Node}
use vpnp2p.Server.Defs.{
  type_array, dispatch, replied, ignored, handle, received_turn, thread_receive_pack,
  register_handler, no_handler,
}
use vpnp2p.Server.Register.{handle_register-merge}

-- The message that asks for registration with a text, its NUL counted.
abbrev pub request : Bytes → Bytes → Message
request type text = record { type = type_array type; buf = text; size = pos (length text + 1) }

module _ (fuel : ℕ) (file : Option Bytes) (text : Bytes) (h : Heap) (no_nul : has_nul text ≡ false)
    (fits : length text < buf_size) where
  -- The turn on a request whose type is sent whole.
  turn-request :
      (type : Bytes)
      → c_string (take 20 (type_array type)) ≡ some type
      → type ≢ width_test
      → (pieces : List Bytes) × (send_msg_over_socket all_succeed (request type text)
          ≡ done (pieces, pos 0))
        × (thread_receive_pack fuel true true (arrive pieces) file h ≡ (
            let m : Message = record {
              type = with_nul type;
              buf = text;
              size = pos (length text + 1);
            } in
            handle fuel true m file (dispatch m) h))
  unfolding thread_receive_pack received_turn
  turn-request type typed other =
      let (pieces, sent, received) =
        recv_msg-send_msg (request type text) type typed other no_nul fits refl in
      (pieces, sent, rw received refl)

pub dispatch-register :
    (text : Bytes)
    → dispatch (record { type = with_nul register; buf = text; size = pos (length text + 1) })
      ≡ register_handler
unfolding dispatch holds c_string str_eq
dispatch-register text = refl

register-c_string : c_string (take 20 (type_array register)) ≡ some register
unfolding c_string
register-c_string = refl

-- A registration with the text of a list is sent, every `send` succeeds and every piece arrives
-- whole. Under the conditions of `handle_register-merge`, and if the text has no NUL and is
-- shorter than a buffer, the turn on it answers with the text of the list that merges the
-- message's list into the file's, and the file then holds that list.
pub thread_receive_pack-register :
    (fuel : ℕ) (n : Node) (ns ms : List Node) (h : Heap)
    → 0 < h.brk
    → AllNodesFit buf_limits ms
    → length (node_lines ms) ≤ 50
    → AllNodesFit file_limits (n ∷ ns)
    → length (n ∷ ns) < fuel
    → length ms < fuel
    → cells (merge (n ∷ ns) ms) < fuel
    → length (render (merge (n ∷ ns) ms)) < buf_size
    → has_nul (render ms) ≡ false
    → length (render ms) < buf_size
    → (pieces : List Bytes) × (h' : Heap) × (send_msg_over_socket all_succeed
          (request register (render ms))
        ≡ done (pieces, pos 0))
      × (thread_receive_pack fuel true true (arrive pieces) (some (render (n ∷ ns))) h
          ≡ ok
              (replied (some (render (merge (n ∷ ns) ms))) (record {
                type = type_array r_register;
                buf = render (merge (n ∷ ns) ms);
                size = pos (length (render (merge (n ∷ ns) ms)));
              }))
              h')
thread_receive_pack-register fuel n ns ms h positive fits few file_fits room room₂ room₃ small
      no_nul fits_buf =
    let file = some (render (n ∷ ns)) in
    let (h', run, grows) =
      handle_register-merge fuel n ns ms h positive fits few file_fits room room₂ room₃ small in
    let (pieces, sent, turn) =
      turn-request fuel file (render ms) h no_nul fits_buf register register-c_string (λ e. cc) in
    (pieces, h', sent, turn ∙ rw (dispatch-register (render ms)) (unfold handle in rw run refl))

-- The type that `register_node` of JoinTest/node_join.c writes.
abbrev pub join_register : Bytes
join_register = codes "Register"

dispatch-join_register :
    (text : Bytes)
    → dispatch (record { type = with_nul join_register; buf = text; size = pos (length text + 1) })
      ≡ no_handler
unfolding dispatch holds c_string str_eq
dispatch-join_register text = refl

join_register-c_string : c_string (take 20 (type_array join_register)) ≡ some join_register
unfolding c_string
join_register-c_string = refl

-- A message of type `Register`, which is the type that `register_node` writes, is sent; every
-- `send` succeeds, every piece arrives whole, and its text is shorter than a buffer and has no
-- NUL. The turn on it answers nothing.
pub thread_receive_pack-ignores :
    (fuel : ℕ) (file : Option Bytes) (text : Bytes) (h : Heap)
    → has_nul text ≡ false
    → length text < buf_size
    → (pieces : List Bytes) × (send_msg_over_socket all_succeed (request join_register text)
        ≡ done (pieces, pos 0))
      × (thread_receive_pack fuel true true (arrive pieces) file h ≡ ok ignored h)
thread_receive_pack-ignores fuel file text h no_nul fits =
    let (pieces, sent, turn) =
      turn-request fuel file text h no_nul fits join_register join_register-c_string (λ e. cc) in
    (pieces, sent, turn ∙ rw (dispatch-join_register text) (unfold handle in refl))
