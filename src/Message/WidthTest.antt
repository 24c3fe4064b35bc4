-- ===== src/Message/WidthTest.antt =====
-- `send_file_over_socket` of Util/message.c, which sends the width test.
use vpnp2p.Prelude.{
  ℕ, ◌/◌, ◌%◌, ◌^◌, ◌≤◌, ◌≡◌, refl, Bool, true, not, List, [], ◌∷◌, ◌++◌, ℤ, pos, negsuc, arith,
  ltb, if◌then◌else◌, length, length-append, take,
}
use vpnp2p.CString.{Bytes, str_eq}
use vpnp2p.Message.Defs.{
  Outcome, done, undefined, file_size, width_test, width_test_return, with_nul, c_string, holds,
  recv_file, recv_pieces, recv_msg_over_socket,
}
use vpnp2p.Message.Transfer.{all_succeed, arrive}

-- The bytes of an `int` in memory, the lowest first.
abbrev pub int_bytes : ℕ → Bytes
int_bytes n = n % 256 ∷ (n / 2 ^ 8) % 256 ∷ (n / 2 ^ 16) % 256 ∷ (n / 2 ^ 24) % 256 ∷ []

-- The pieces handed to `send`, and the value returned. The type is sent as 20 bytes from a literal of
-- 11: `behind` are the bytes that can be read behind it. `big_buf` are the bytes of the global array.
unfoldable pub send_file_over_socket : Bytes → Bytes → (ℕ → Bool) → Outcome (List Bytes × ℤ)
send_file_over_socket behind big_buf succeeds =
    let temp = int_bytes file_size in
    let type = with_nul width_test ++ behind in
    if not (succeeds 0)
    then done ([], negsuc 0)
    else if ltb (length type) 20
    then undefined
    else if not (succeeds 1)
    then done (temp ∷ [], negsuc 0)
    else if not (succeeds 2)
    then done (temp ∷ take 20 type ∷ [], negsuc 0)
    else done (temp ∷ take 20 type ∷ take file_size big_buf ∷ [], pos 0)

abbrev width_test_pieces : Bytes → Bytes → List Bytes
width_test_pieces behind big_buf =
    int_bytes file_size ∷ take 20 (with_nul width_test ++ behind) ∷ take file_size big_buf ∷ []

width_test-take :
    (behind : Bytes) → take 20 (with_nul width_test ++ behind) ≡ width_test ++ 0 ∷ take 9 behind
width_test-take behind = refl

width_test-holds : (rest : Bytes) → holds (width_test ++ 0 ∷ rest) width_test ≡ true
unfolding holds c_string str_eq
width_test-holds rest = refl

send_file-sent :
    (behind big_buf : Bytes)
    → 9 ≤ length behind
    → send_file_over_socket behind big_buf all_succeed
      ≡ done (width_test_pieces behind big_buf, pos 0)
unfolding send_file_over_socket
send_file-sent behind big_buf room = rw (length-append (with_nul width_test) behind) (ground arith)

-- If 9 bytes can be read behind the literal, every `send` succeeds and every piece arrives whole,
-- `recv_msg_over_socket` makes the message of type `width_test_return` of a width test, whatever
-- its bytes are.
pub recv_msg-send_file :
    (behind big_buf : Bytes)
    → 9 ≤ length behind
    → (pieces : List Bytes) × (send_file_over_socket behind big_buf all_succeed
        ≡ done (pieces, pos 0))
      × (recv_msg_over_socket (arrive pieces)
          ≡ done (record {
            type = with_nul width_test_return;
            buf = width_test_return;
            size = pos file_size;
          }))
unfolding recv_msg_over_socket recv_pieces recv_file
recv_msg-send_file behind big_buf room = (
  width_test_pieces behind big_buf,
  send_file-sent behind big_buf room,
  rw (width_test-holds (take 9 behind)) refl,
)
