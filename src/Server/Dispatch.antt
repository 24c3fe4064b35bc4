-- ===== src/Server/Dispatch.antt =====
-- Which handlers of server.c can be reached.
use vpnp2p.Prelude.{
  ℕ, ◌<◌, ◌≤◌, ◌≡◌, ◌≢◌, refl, ap, false, Option, none, some, [], ℤ, arith, length, Bool-cases, inl,
  inr,
}
use vpnp2p.CString.{Bytes}
use vpnp2p.CString.Equal.{str_eq_ne}
use vpnp2p.Message.Bytes.{has_nul, c_string-append_nul, c_string-length, c_string-has_nul}
use vpnp2p.Message.{
  Message, Outcome, ◌>>=◌, recv_buf, store_strings, done, failed, undefined, width_test,
  width_test_return, regular_update_return, with_nul, c_string, ntohl_int, recv_text, recv_file,
  recv_pieces, recv_msg_over_socket, holds,
}
use vpnp2p.Server.Defs.{dispatch, width_test_handler}

-- The type of a message that was received.
record ReceivedType (m : Message) : Type 0 where
  text : Bytes
  type : m.type ≡ with_nul text
  short : length text < 20
  no_nul : has_nul text ≡ false

bind-done :
    {A B : Type 0} (o : Outcome A) (f : A → Outcome B) (b : B)
    → (o >>= f) ≡ done b
    → (a : A) × (o ≡ done a) × (f a ≡ done b)
bind-done (done a) f b e = (a, refl, e)
bind-done failed f b e = cc
bind-done undefined f b e = cc

store_strings-done :
    (msg_len : ℤ) (text type : Option Bytes) (m : Message)
    → store_strings msg_len text type ≡ done m
    → (t : Bytes) × (type ≡ some t) × (m.type ≡ with_nul t)
unfolding store_strings
store_strings-done msg_len none none m e = cc
store_strings-done msg_len none (some t) m e = cc
store_strings-done msg_len (some s) none m e = cc
store_strings-done msg_len (some s) (some t) m e = (t, refl, ground arith)

recv_text-ReceivedType :
    (temp msg_type : Bytes) (answer : Option Bytes) (m : Message)
    → length msg_type ≤ 20
    → recv_text temp msg_type answer ≡ done m
    → ReceivedType m
unfolding recv_text
recv_text-ReceivedType temp msg_type answer m fits e =
    let store = λ (msg_len : ℤ) (tempbuf : Bytes).
      store_strings msg_len (c_string tempbuf) (c_string msg_type) in
    let (msg_len, e₁, f₁) = bind-done (ntohl_int temp) (λ n. recv_buf n answer >>= store n) m e in
    let (tempbuf, e₂, f₂) = bind-done (recv_buf msg_len answer) (store msg_len) m f₁ in
    let (type, str, named) =
      store_strings-done msg_len (c_string tempbuf) (c_string msg_type) m f₂ in
    record {
      text = type;
      type = named;
      short = omega (arith, c_string-length msg_type type str);
      no_nul = c_string-has_nul msg_type type str;
    }

not_below : (a b : Bytes) → a ≡ b → length a < 20 → 20 ≤ length b → ⊥
not_below a b q short long = let n : length a ≡ length b = ap (λ x. length x) q in omega arith

recv_file-ReceivedType :
    (answer : Option Bytes) (m : Message)
    → recv_file answer ≡ done m
    → ReceivedType m × (m.type ≡ with_nul width_test_return)
unfolding recv_file
recv_file-ReceivedType none m e = cc
recv_file-ReceivedType (some b) m e =
    let q : m.type ≡ with_nul width_test_return = cc in
    (record { text = width_test_return; type = q; short = omega arith; no_nul = refl }, q)

-- A received type is compared as the string that it is.
holds-with_nul :
    (m : Message) (t s : Bytes)
    → m.type ≡ with_nul t
    → has_nul t ≡ false
    → t ≢ s
    → holds m.type s ≡ false
unfolding holds
holds-with_nul m t s e no_nul ne = rw (e, c_string-append_nul t [] no_nul) (str_eq_ne t s ne)

recv_pieces-ReceivedType :
    (temp msg_type answer : Option Bytes) (m : Message)
    → ((b : Bytes) → msg_type ≡ some b → length b ≤ 20)
    → recv_pieces temp msg_type answer ≡ done m
    → ReceivedType m
unfolding recv_pieces
recv_pieces-ReceivedType none msg_type answer m fits e = cc
recv_pieces-ReceivedType (some temp) none answer m fits e = cc
recv_pieces-ReceivedType (some temp) (some b) answer m fits e =
    elim (Bool-cases (holds b width_test)) [
      | inl q ↦ (recv_file-ReceivedType answer m (ground arith)).0
      | inr q ↦ recv_text-ReceivedType temp b answer m (fits b refl) (ground arith)
    ]

-- If the second `recv` delivers at most the 20 bytes that it asks for, no message that
-- `recv_msg_over_socket` returns is given to `handle_width_test`.
pub dispatch-never_width_test :
    (answers : ℕ → Option Bytes) (m : Message)
    → ((msg_type : Bytes) → answers 1 ≡ some msg_type → length msg_type ≤ 20)
    → recv_msg_over_socket answers ≡ done m
    → dispatch m ≢ width_test_handler
unfolding dispatch recv_msg_over_socket
dispatch-never_width_test answers m fits e =
    let r = recv_pieces-ReceivedType (answers 0) (answers 1) (answers 2) m fits e in
    let other : r.text ≢ regular_update_return =
      λ q. not_below (r.text) regular_update_return q r.short (omega arith) in
    let no = holds-with_nul m r.text regular_update_return r.type r.no_nul other in
    λ d. ground arith
