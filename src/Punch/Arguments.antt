-- ===== src/Punch/Arguments.antt =====
-- The arguments of `main` of PunchTest/udp_client.c.
use vpnp2p.Prelude.{Option, none, some, List, [], ◌∷◌, ℤ, pos, eq_ℤ, ltb, if◌then◌else◌, length}
use vpnp2p.CString.{Bytes, atoi, is_int}

infixl 5 ◌>>=◌
abbrev ◌>>=◌ : {A B : Type 0} → Option A → (A → Option B) → Option B
none >>= f = none
some a >>= f = f a

-- The variables that `main` sets.
pub record Settings : Type 0 where
  pub type : ℤ
  pub srv_ip : Bytes
  pub server_port : ℤ
  pub usleep_time : ℤ
  pub send_string : Bytes
  pub recv_string : Bytes

-- `main` prints how it is used, or goes on with the threads.
pub data Start : Type 0 where
  usage : Start
  started : Settings → Start

-- `atoi` is undefined where the number is no `int`.
unfoldable pub int_argument : Bytes → Option ℤ
int_argument s = if is_int (atoi s) then some (atoi s) else none

-- `strcpy` into an array of 100 bytes.
unfoldable pub string_argument : Bytes → Option Bytes
string_argument s = if ltb (length s) 100 then some s else none

-- `type==1`: the address and the port of the peer, and the string to send.
unfoldable pub connect_client : ℤ → List Bytes → Option Start
unfolding int_argument string_argument
connect_client type (ip ∷ port ∷ send ∷ []) = do
  srv_ip ← string_argument ip
  server_port ← int_argument port
  send_string ← string_argument send
  some (
      started (record {
        type = type;
        srv_ip = srv_ip;
        server_port = server_port;
        usleep_time = pos 0;
        send_string = send_string;
        recv_string = [];
      }))
connect_client type _ = some usage

-- Any other type: the address of the server, the time to sleep, and the two strings.
unfoldable pub connect_server : ℤ → List Bytes → Option Start
unfolding int_argument string_argument
connect_server type (ip ∷ time ∷ send ∷ recv ∷ []) = do
  srv_ip ← string_argument ip
  usleep_time ← int_argument time
  send_string ← string_argument send
  recv_string ← string_argument recv
  some (
      started (record {
        type = type;
        srv_ip = srv_ip;
        server_port = pos 0;
        usleep_time = usleep_time;
        send_string = send_string;
        recv_string = recv_string;
      }))
connect_server type _ = some usage

-- `argv[1]` is read before the arguments are counted.
unfoldable pub main : List Bytes → Option Start
unfolding int_argument connect_client connect_server
main (program ∷ kind ∷ arguments) = do
  type ← int_argument kind
  if eq_ℤ type (pos 1) then connect_client type arguments else connect_server type arguments
main _ = none
