-- ===== src/Join/Defs.antt =====
-- `register_node` and `judge_local_ip` of JoinTest/node_join.c, `ip_list_contains` and `ip_match` of
-- Util/util.c, and the files of Util/message.c. The addresses of the machine are those in the ten
-- slots of the array that `get_local_ip` returns, up to one that is `NULL`.
use vpnp2p.Prelude.{
  ℕ, zero, suc, ◌+◌, Bool, true, false, not, Option, none, some, List, [], ◌∷◌, ℤ, pos, ltb, ◌==◌,
  if◌then◌else◌, length, take,
}
use vpnp2p.CString.{Bytes, codes, str_eq}
use vpnp2p.Message.{
  Message, Outcome, done, failed, undefined, buf_size, with_nul, send_msg_over_socket,
  recv_msg_over_socket,
}
use vpnp2p.NodeInfo.Heap.{
  Ptr, null, Cmd, pure, fail, ◌>>=◌, out_of_fuel, out_of_bounds, bad_transfer, bad_pointer, load_ip,
  load_node,
}
use vpnp2p.NodeInfo.Parse.{convert_buf_to_node}

abbrev pub ip_list_size : ℕ
ip_list_size = 10

unfoldable pub ip_list_contains : List Bytes → Bytes → Bool
ip_list_contains [] ip = false
ip_list_contains (s ∷ ip_list) ip =
    let rest = ip_list_contains ip_list ip in if str_eq s ip then true else rest

-- The addresses in front of the first slot that is `NULL`, of `left` slots.
unfoldable pub local_ips : ℕ → List (Option Bytes) → List Bytes
local_ips zero slots = []
local_ips (suc left) [] = []
local_ips (suc left) (none ∷ slots) = []
local_ips (suc left) (some s ∷ slots) = s ∷ local_ips left slots

-- The last loop of `ip_match`.
unfoldable pub all_local : List Bytes → List Bytes → Bool
unfolding ip_list_contains
all_local [] locals = true
all_local (s ∷ ip_list) locals =
    let rest = all_local ip_list locals in if not (ip_list_contains locals s) then false else rest

unfoldable pub ip_match : List Bytes → List (Option Bytes) → Bool
unfolding local_ips all_local
ip_match ip_list slots =
    let locals = local_ips ip_list_size slots in
    if not (length ip_list == length locals) then false else all_local ip_list locals

-- The loop of `judge_local_ip` from `ip` on, when `pos` slots of `node_ip_list` are filled.
unfoldable pub node_ips : ℕ → ℕ → Ptr → Cmd (List Bytes)
node_ips zero filled ip = fail out_of_fuel
node_ips (suc fuel) filled ip = if ip == null then pure [] else do
  c ← load_ip ip
  if not (ltb filled ip_list_size)
      then fail out_of_bounds
      else (do rest ← node_ips fuel (filled + 1) c.next_ip; pure (c.ip ∷ rest))

unfoldable pub judge_local_ip : ℕ → Ptr → List (Option Bytes) → Cmd Bool
unfolding node_ips ip_match
judge_local_ip fuel local_node slots = do
  node ← load_node local_node
  node_ip_list ← node_ips fuel 0 node.ip_list
  pure (ip_match node_ip_list slots)

-- `read_file_to_buf`: the text and the size. Without a file `fclose` closes a null stream, and a file
-- of 65536 bytes or more leaves no room for the NUL.
unfoldable pub read_file_to_buf : Option Bytes → Cmd (Bytes × ℤ)
read_file_to_buf none = fail bad_pointer
read_file_to_buf (some s) =
    if ltb (length s) buf_size then pure (s, pos (length s + 1)) else fail out_of_bounds

-- `write_buf_to_file(message, …, message->size - 1)`: the new contents.
unfoldable pub write_buf_to_file : Bool → Message → Cmd Bytes
write_buf_to_file opens message = elim message.size [
  | pos (suc n) ↦
      if not opens
      then fail bad_pointer
      else if ltb (length message.buf + 1) n
      then fail out_of_bounds
      else pure (take n (with_nul message.buf))
  | _ ↦ fail out_of_bounds
]

-- The value of a transfer, or `none` if the program exits because of it; what is undefined there is
-- the fault `bad_transfer`.
abbrev pub run_transfer : {A : Type 0} → Outcome A → Cmd (Option A)
run_transfer (done a) = pure (some a)
run_transfer failed = pure none
run_transfer undefined = fail bad_transfer

-- `register_node` behind the reply: the file's new contents, and the list of nodes.
unfoldable pub save_reply : Bool → Option Message → Cmd (Option (Bytes × Ptr))
unfolding write_buf_to_file
save_reply opens none = pure none
save_reply opens (some reply_msg) = do
  file ← write_buf_to_file opens reply_msg
  ret_node ← convert_buf_to_node reply_msg.buf
  pure (some (file, ret_node))

-- Behind the call of `send_msg_over_socket`.
unfoldable pub await_reply :
    Bool → (ℕ → Option Bytes) → Option (List Bytes × ℤ) → Cmd (Option (Bytes × Ptr))
unfolding save_reply
await_reply opens answers (some (pieces, pos n)) = do
  reply_msg ← run_transfer (recv_msg_over_socket answers)
  save_reply opens reply_msg
await_reply opens answers _ = pure none

-- `register_node`: whether the connection is made, which `send` succeeds, and the answers to `recv`.
-- `none` if the program exits.
unfoldable pub register_node :
    Bool → Bool → (ℕ → Bool) → (ℕ → Option Bytes) → Option Bytes → Cmd (Option (Bytes × Ptr))
unfolding read_file_to_buf await_reply
register_node opens connects succeeds answers file = if not connects then pure none else (do
  (buf, size) ← read_file_to_buf file
  let message : Message = record { type = with_nul (codes "Register"); buf = buf; size = size }
  sent ← run_transfer (send_msg_over_socket succeeds message)
  await_reply opens answers sent)
