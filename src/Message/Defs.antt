-- ===== src/Message/Defs.antt =====
-- The messages of Util/message.h and the transfers of Util/message.c. The calls of `send` and `recv`
-- belong to the environment: it says of each `send` whether it succeeds, and gives for each `recv`
-- the bytes that arrived, or `none` if the call fails.
use vpnp2p.Prelude.{
  ℕ, suc, ◌+◌, ◌-◌, ◌*◌, ◌/◌, ◌%◌, ◌^◌, Bool, false, not, Option, none, some, List, [], ◌∷◌, ◌++◌,
  ℤ, pos, negsuc, ltb, ◌==◌, if◌then◌else◌, length, take,
}
use vpnp2p.CString.{Bytes, codes, str_eq}

-- `struct Message`. Of `type` the bytes that were written, NUL included; of `buf`
-- the bytes in front of the NUL that was written last.
pub record Message : Type 0 where
  pub type : Bytes
  pub buf : Bytes
  pub size : ℤ

pub data Outcome (A : Type 0) : Type 0 where
  done : A → Outcome A
  failed : Outcome A
  undefined : Outcome A

infixl 5 ◌>>=◌
abbrev pub ◌>>=◌ : {A B : Type 0} → Outcome A → (A → Outcome B) → Outcome B
done a >>= f = f a
failed >>= f = failed
undefined >>= f = undefined

abbrev pub buf_size : ℕ
buf_size = 1024 * 64

abbrev pub file_size : ℕ
file_size = 2 ^ 19

abbrev pub register : Bytes
register = codes "register"

abbrev pub r_register : Bytes
r_register = codes "r_register"

abbrev pub regular_update : Bytes
regular_update = codes "regular_update"

abbrev pub regular_update_return : Bytes
regular_update_return = codes "regular_update_return"

abbrev pub width_test : Bytes
width_test = codes "width_test"

abbrev pub width_test_return : Bytes
width_test_return = codes "width_test_return"

-- What a literal, or `strcpy`, puts into an array.
abbrev pub with_nul : Bytes → Bytes
with_nul s = s ++ 0 ∷ []

-- The string that begins an array, if it ends there.
unfoldable pub c_string : Bytes → Option Bytes
c_string [] = none
c_string (c ∷ s) =
    let rest = c_string s in
    if c == 0 then some [] else elim rest [ none ↦ none | some t ↦ some (c ∷ t) ]

-- The four bytes of `htonl(n)` in memory.
unfoldable pub htonl_bytes : ℕ → Bytes
htonl_bytes n = (n / 2 ^ 24) % 256 ∷ (n / 2 ^ 16) % 256 ∷ (n / 2 ^ 8) % 256 ∷ n % 256 ∷ []

-- `ntohl(temp)` as an `int`, if `recv` filled `temp`.
unfoldable pub ntohl_int : Bytes → Outcome ℤ
ntohl_int (a ∷ b ∷ c ∷ d ∷ []) =
    let n = ((a * 256 + b) * 256 + c) * 256 + d in
    if ltb n (2 ^ 31) then done (pos n) else done (negsuc (2 ^ 32 - n - 1))
ntohl_int _ = undefined

-- The bits of an `int`.
abbrev pub to_unsigned : ℤ → ℕ
to_unsigned (pos n) = n
to_unsigned (negsuc n) = 2 ^ 32 - n - 1

-- The last call of `send`, behind the pieces that were sent. `buf` is a string of its array, and behind
-- its NUL nothing is known to be written.
unfoldable pub send_buf : Bool → List Bytes → Bytes → ℤ → Outcome (List Bytes × ℤ)
send_buf succeeds pieces buf (negsuc n) = undefined
send_buf succeeds pieces buf (pos size) =
    if ltb (length (with_nul buf)) size
    then undefined
    else if succeeds
    then done (pieces ++ take size (with_nul buf) ∷ [], pos 0)
    else done (pieces, negsuc 0)

-- The pieces handed to `send`, and the value returned. Of the 20 bytes of the type, those that were
-- never written are left out; they stand behind its NUL.
unfoldable pub send_msg_over_socket : (ℕ → Bool) → Message → Outcome (List Bytes × ℤ)
unfolding send_buf
send_msg_over_socket succeeds message =
    let temp = htonl_bytes (to_unsigned message.size) in
    let type = take 20 message.type in
    if not (succeeds 0)
    then done ([], negsuc 0)
    else if not (succeeds 1)
    then done (temp ∷ [], negsuc 0)
    else send_buf (succeeds 2) (temp ∷ type ∷ []) message.buf message.size

-- `recv` into `char tempbuf[msg_len]`; an array of no bytes, or fewer, is undefined.
unfoldable pub recv_buf : ℤ → Option Bytes → Outcome Bytes
recv_buf (pos (suc n)) (some b) = done b
recv_buf (pos (suc n)) none = failed
recv_buf _ _ = undefined

-- The two calls of `strcpy` into the message, from the strings in `tempbuf` and `msg_type`.
unfoldable pub store_strings : ℤ → Option Bytes → Option Bytes → Outcome Message
store_strings msg_len (some text) (some type) =
    if ltb (length text) buf_size
    then done (record { type = with_nul type; buf = text; size = msg_len })
    else undefined
store_strings msg_len _ _ = undefined

-- The other branch of `recv_msg_over_socket`, behind the type.
unfoldable pub recv_text : Bytes → Bytes → Option Bytes → Outcome Message
unfolding ntohl_int c_string recv_buf store_strings
recv_text temp msg_type answer = do
  msg_len ← ntohl_int temp
  tempbuf ← recv_buf msg_len answer
  store_strings msg_len (c_string tempbuf) (c_string msg_type)

-- The branch of a width test, with `recv_file_over_socket`.
unfoldable pub recv_file : Option Bytes → Outcome Message
recv_file none = failed
recv_file (some b) =
    done
      (record { type = with_nul width_test_return; buf = width_test_return; size = pos file_size })

abbrev pub is_string : Option Bytes → Bytes → Bool
is_string none s = false
is_string (some t) s = str_eq t s

-- `strcmp(a, s) == 0` for an array `a` that need not hold a string.
unfoldable pub holds : Bytes → Bytes → Bool
unfolding c_string
holds a s = is_string (c_string a) s

-- `recv_msg_over_socket`, from the answers to its three calls of `recv`.
unfoldable pub recv_pieces : Option Bytes → Option Bytes → Option Bytes → Outcome Message
unfolding recv_text recv_file holds
recv_pieces none msg_type answer = failed
recv_pieces (some temp) none answer = failed
recv_pieces (some temp) (some msg_type) answer =
    if holds msg_type width_test then recv_file answer else recv_text temp msg_type answer

unfoldable pub recv_msg_over_socket : (ℕ → Option Bytes) → Outcome Message
unfolding recv_pieces
recv_msg_over_socket answers = recv_pieces (answers 0) (answers 1) (answers 2)
