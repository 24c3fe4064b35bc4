-- ===== src/JoinServer/Defs.antt =====
-- One turn of `thread_receive_pack` of JoinTest/node_join_server.c.
use vpnp2p.Prelude.{ℕ, Bool, true, not, ◌&&◌, Option, some, [], ◌∷◌, pos, ◌==◌, if◌then◌else◌}
use vpnp2p.CString.{Bytes, codes}
use vpnp2p.Message.{Message, Outcome, done, failed, undefined, buf_size, recv_msg_over_socket}
use vpnp2p.NodeInfo.Heap.{Cmd, pure, fail, ◌>>=◌, ◌>>◌, bad_transfer, indeterminate}
use vpnp2p.NodeInfo.Merge.{node_merge}
use vpnp2p.NodeInfo.Parse.{convert_buf_to_node, file2struct}
use vpnp2p.NodeInfo.Print.{struct2file, convert_node_to_buf}
use vpnp2p.Server.Defs.{Turn, stopped, ignored, replied, type_array}

-- What `printf` can print as a format to which no argument is given.
abbrev pub is_plain : Bytes → Bool
is_plain [] = true
is_plain (c ∷ []) = not (c == b'%')
is_plain (c ∷ d ∷ s) =
    let rest = is_plain (d ∷ s) in
    let behind = is_plain s in if c == b'%' then (d == b'%') && behind else rest

unfoldable pub print_format : Bytes → Cmd (Unit {0})
print_format text = if is_plain text then pure tt else fail indeterminate

-- The part of the loop's body under `1 != threadflag`: the file's new contents and the reply. The text
-- of the reply is also printed, as the format of a `printf`.
unfoldable pub register_peer : ℕ → Bool → Bytes → Option Bytes → Cmd (Option Bytes × Message)
unfolding print_format
register_peer fuel opens buf file = do
  recv_node ← convert_buf_to_node buf
  local_node ← file2struct file
  merged ← node_merge fuel local_node recv_node
  (text, code) ← struct2file fuel opens [] local_node
  (reply, len) ← convert_node_to_buf buf_size fuel local_node
  print_format reply
  pure (
    if opens then some text else file,
    record { type = type_array (codes "R_Register"); buf = reply; size = pos len },
  )

-- The turn behind a call of `recv_msg_over_socket`.
unfoldable pub received_peer : ℕ → Bool → ℕ → Outcome Message → Option Bytes → Cmd Turn
unfolding register_peer
received_peer fuel opens threadflag failed file = pure ignored
received_peer fuel opens threadflag undefined file = fail bad_transfer
received_peer fuel opens threadflag (done msg) file =
    if threadflag == 1
    then pure stopped
    else do (file', reply) ← register_peer fuel opens msg.buf file; pure (replied file' reply)

unfoldable pub thread_receive_pack :
    ℕ → Bool → ℕ → Bool → (ℕ → Option Bytes) → Option Bytes → Cmd Turn
unfolding received_peer
thread_receive_pack fuel opens threadflag accepts answers file =
    if accepts
    then received_peer fuel opens threadflag (recv_msg_over_socket answers) file
    else pure stopped
