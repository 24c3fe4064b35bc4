-- ===== src/Message/Transfer.antt =====
-- What `recv_msg_over_socket` makes of what `send_msg_over_socket` sends.
use vpnp2p.Prelude.{
  ℕ, zero, suc, ◌+◌, ◌^◌, ◌<◌, ◌≤◌, ◌≡◌, ◌≢◌, refl, sym, ap, ◌∙◌, Bool, true, false, Option, none,
  some, List, [], ◌∷◌, pos, arith, length, take, length-append, get_elem?,
}
use vpnp2p.CString.{Bytes}
use vpnp2p.CString.Equal.{str_eq_ne}
use vpnp2p.Message.Bytes.{
  has_nul, c_string-append_nul, c_string-no_nul, take-length, take-all, ntohl_int-htonl_bytes,
}
use vpnp2p.Message.Defs.{
  Message, done, undefined, buf_size, width_test, with_nul, c_string, htonl_bytes, send_buf,
  send_msg_over_socket, recv_msg_over_socket, recv_pieces, recv_text, holds,
}

-- Every `send` succeeds.
abbrev pub all_succeed : ℕ → Bool
all_succeed i = true

-- Every piece arrives whole, in one call of `recv`.
abbrev pub arrive : List Bytes → ℕ → Option Bytes
arrive pieces i = get_elem? pieces i

holds-ne : (a type s : Bytes) → c_string a ≡ some type → type ≢ s → holds a s ≡ false
unfolding holds
holds-ne a type s typed ne = rw typed (str_eq_ne type s ne)

abbrev pub sent : Message → ℕ → List Bytes
sent m n = htonl_bytes n ∷ take 20 m.type ∷ take n (with_nul m.buf) ∷ []

pub send_msg-sent :
    (m : Message) (n : ℕ)
    → m.size ≡ pos n
    → n ≤ length m.buf + 1
    → send_msg_over_socket all_succeed m ≡ done (sent m n, pos 0)
unfolding send_msg_over_socket send_buf
send_msg-sent m n size fits = rw (size, length-append m.buf (0 ∷ [])) (ground arith)

recv_text-done :
    (n : ℕ) (msg_type type text tempbuf : Bytes)
    → suc n < 2 ^ 31
    → c_string msg_type ≡ some type
    → c_string tempbuf ≡ some text
    → length text < buf_size
    → recv_text (htonl_bytes (suc n)) msg_type (some tempbuf)
      ≡ done (record { type = with_nul type; buf = text; size = pos (suc n) })
unfolding recv_text
recv_text-done n msg_type type text tempbuf low typed str fits =
    rw (ntohl_int-htonl_bytes (suc n) low, str, typed) (ground arith)

recv_text-undefined :
    (n : ℕ) (msg_type tempbuf : Bytes)
    → n < 2 ^ 31
    → c_string tempbuf ≡ none
    → recv_text (htonl_bytes n) msg_type (some tempbuf) ≡ undefined
unfolding recv_text
recv_text-undefined zero msg_type tempbuf low str = rw (ntohl_int-htonl_bytes 0 low) refl
recv_text-undefined (suc n) msg_type tempbuf low str =
    rw (ntohl_int-htonl_bytes (suc n) low, str) refl

module _ (m : Message) (type : Bytes) (typed : c_string (take 20 m.type) ≡ some type)
    (other : type ≢ width_test) (no_nul : has_nul m.buf ≡ false)
    (fits : length m.buf < buf_size) where
  received :
      (n : ℕ)
      → recv_msg_over_socket (arrive (sent m n))
        ≡ recv_text (htonl_bytes n) (take 20 m.type) (some (take n (with_nul m.buf)))
  unfolding recv_msg_over_socket recv_pieces
  received n = rw (holds-ne (take 20 m.type) type width_test typed other) refl

  -- Every `send` succeeds and every piece arrives whole; the type is a string within the first 20
  -- bytes and not that of a width test, and the text is shorter than a buffer and has no NUL. If
  -- the size counts the NUL behind the text, the message arrives as it was sent.
  pub recv_msg-send_msg :
      m.size ≡ pos (length m.buf + 1)
      → (pieces : List Bytes) × (send_msg_over_socket all_succeed m ≡ done (pieces, pos 0))
        × (recv_msg_over_socket (arrive pieces)
            ≡ done (record { type = with_nul type; buf = m.buf; size = m.size }))
  recv_msg-send_msg size =
      let n = length m.buf in
      let counted : m.size ≡ pos (suc n) = size ∙ ap pos (omega arith) in
      let whole : take (suc n) (with_nul m.buf) ≡ with_nul m.buf =
        ap (λ k. take k (with_nul m.buf)) {x = suc n} (omega (arith, length-append m.buf (0 ∷ [])))
        ∙ take-all (with_nul m.buf) in
      (
        sent m (suc n),
        send_msg-sent m (suc n) counted (omega arith),
        received (suc n)
            ∙ recv_text-done n (take 20 m.type) type m.buf (take (suc n) (with_nul m.buf))
                (omega arith) typed (ap c_string whole ∙ c_string-append_nul m.buf [] no_nul) fits
            ∙ ap (λ k. done (record { type = with_nul type; buf = m.buf; size = k })) (sym counted),
      )

  -- Under the same conditions, but with a size that does not count the NUL, the receiver copies a
  -- text that has no end: what it does is undefined.
  pub recv_msg_unterminated :
      m.size ≡ pos (length m.buf)
      → (pieces : List Bytes) × (send_msg_over_socket all_succeed m ≡ done (pieces, pos 0))
        × (recv_msg_over_socket (arrive pieces) ≡ undefined)
  recv_msg_unterminated size =
      let n = length m.buf in
      (
        sent m n,
        send_msg-sent m n size (omega arith),
        received n
            ∙ recv_text-undefined n (take 20 m.type) (take n (with_nul m.buf)) (omega arith)
                (ap c_string (take-length m.buf (0 ∷ [])) ∙ c_string-no_nul m.buf no_nul),
      )
