-- ===== src/Server/Defs.antt =====
-- The handlers of server.c. JoinTest/node_join_server.c has the same steps in its loop.
use vpnp2p.Prelude.{
  ℕ, ◌+◌, Bool, Option, some, ◌-◌, [], pos, if◌then◌else◌, length, ◌++◌, replicate,
}
use vpnp2p.CString.{Bytes}
use vpnp2p.Message.{
  Message, buf_size, register, r_register, regular_update, regular_update_return, width_test_return,
  holds, Outcome, done, failed, undefined, recv_msg_over_socket,
}
use vpnp2p.NodeInfo.Heap.{Cmd, pure, fail, ◌>>=◌, bad_transfer}
use vpnp2p.NodeInfo.Merge.{node_merge}
use vpnp2p.NodeInfo.Parse.{convert_buf_to_node, file2struct}
use vpnp2p.NodeInfo.Print.{struct2file, convert_node_to_buf}

-- `strcpy` into an array of 40 bytes that `bzero` cleared.
abbrev pub type_array : Bytes → Bytes
type_array s = s ++ replicate (40 - length s) 0

-- `handle_register` up to its call of `send_msg_over_socket`: from the text of the message and the
-- contents of the file, if there is one, the new contents and the reply. `opens` says whether the
-- file can be opened for writing.
unfoldable pub handle_register : ℕ → Bool → Bytes → Option Bytes → Cmd (Option Bytes × Message)
handle_register fuel opens buf file = do
  recv_node ← convert_buf_to_node buf
  local_node ← file2struct file
  merged ← node_merge fuel local_node recv_node
  (text, code) ← struct2file fuel opens [] local_node
  (reply, len) ← convert_node_to_buf buf_size fuel local_node
  pure (
    if opens then some text else file,
    record { type = type_array r_register; buf = reply; size = pos len },
  )

-- The replies of `handle_regular_update` and `handle_width_test`; `sizeof` of a literal counts its
-- NUL.
unfoldable pub reply_regular_update : Message
reply_regular_update = record {
  type = type_array regular_update_return;
  buf = regular_update_return;
  size = pos (length regular_update_return + 1);
}

unfoldable pub reply_width_test : Message
reply_width_test = record {
  type = type_array width_test_return;
  buf = width_test_return;
  size = pos (length width_test_return + 1);
}

-- The handler that `thread_receive_pack` calls.
pub data Handler : Type 0 where
  register_handler regular_update_handler width_test_handler no_handler : Handler

unfoldable pub dispatch : Message → Handler
dispatch msg =
    if holds msg.type register
    then register_handler
    else if holds msg.type regular_update
    then regular_update_handler
    else if holds msg.type regular_update_return
    then width_test_handler
    else no_handler

-- What one turn of `thread_receive_pack` comes to: the loop ends, nothing is answered, or a reply is
-- sent and the file may have changed.
pub data Turn : Type 0 where
  stopped ignored : Turn
  replied : Option Bytes → Message → Turn

-- The handlers, on the message that was received.
unfoldable pub handle : ℕ → Bool → Message → Option Bytes → Handler → Cmd Turn
unfolding handle_register
handle fuel opens msg file register_handler = do
  (file', reply) ← handle_register fuel opens msg.buf file
  pure (replied file' reply)
handle fuel opens msg file regular_update_handler = pure (replied file reply_regular_update)
handle fuel opens msg file width_test_handler = pure (replied file reply_width_test)
handle fuel opens msg file no_handler = pure ignored

-- The loop behind a call of `recv_msg_over_socket` with this outcome; what is undefined there is the
-- fault `bad_transfer`.
unfoldable pub received_turn : ℕ → Bool → Outcome Message → Option Bytes → Cmd Turn
unfolding dispatch handle
received_turn fuel opens failed file = pure ignored
received_turn fuel opens undefined file = fail bad_transfer
received_turn fuel opens (done msg) file = handle fuel opens msg file (dispatch msg)

-- One turn: whether `accept` succeeds, and the answers to the calls of `recv`.
unfoldable pub thread_receive_pack : ℕ → Bool → Bool → (ℕ → Option Bytes) → Option Bytes → Cmd Turn
unfolding received_turn
thread_receive_pack fuel opens accepts answers file =
    if accepts then received_turn fuel opens (recv_msg_over_socket answers) file else pure stopped
