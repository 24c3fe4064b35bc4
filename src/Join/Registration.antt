-- ===== src/Join/Registration.antt =====
-- `register_node` of JoinTest/node_join.c and the reply to it.
use vpnp2p.Prelude.{
  ℕ, suc, ◌+◌, ◌≤◌, ◌<◌, ◌≡◌, ◌≢◌, refl, ap, ◌∙◌, true, false, Option, some, List, [], ◌∷◌, pos,
  arith, ltb, length, take,
}
use vpnp2p.CString.{Bytes, codes}
use vpnp2p.Join.Defs.{read_file_to_buf, write_buf_to_file, save_reply, await_reply, register_node}
use vpnp2p.Message.Bytes.{has_nul, take-length}
use vpnp2p.Message.Transfer.{
  all_succeed, arrive, sent, send_msg-sent, recv_msg-send_msg, recv_msg_unterminated,
}
use vpnp2p.Message.{Message, done, buf_size, width_test, with_nul, c_string, send_msg_over_socket}
use vpnp2p.NodeInfo.Heap.{Ptr, Heap, ok, fault, bad_transfer}
use vpnp2p.NodeInfo.Parse.BufLines.{buf_limits}
use vpnp2p.NodeInfo.Parse.ReadNodes.{AllNodesFit}
use vpnp2p.NodeInfo.Print.Render.{node_lines, render}
use vpnp2p.NodeInfo.RoundTrip.{Builds, convert_buf_to_node-render}
use vpnp2p.NodeInfo.Values.{Node}

-- `write_buf_to_file` of a text whose size counts the NUL.
write_buf-text :
    (type text : Bytes) (h : Heap)
    → write_buf_to_file true (record { type = type; buf = text; size = pos (suc (length text)) }) h
      ≡ ok text h
unfolding write_buf_to_file
write_buf-text type text h = rw (take-length text (0 ∷ [])) (ground arith)

-- The request is sent, and then it is up to the reply.
register_node-await :
    (text : Bytes) (answers : ℕ → Option Bytes) (h : Heap)
    → length text < buf_size
    → (pieces : List Bytes) × (register_node true true all_succeed answers (some text) h
        ≡ await_reply true answers (some (pieces, pos 0)) h)
unfolding register_node read_file_to_buf
register_node-await text answers h fits =
    let message : Message = record {
      type = with_nul (codes "Register");
      buf = text;
      size = pos (length text + 1);
    } in
    let inside : ltb (length text) buf_size ≡ true = ground arith in
    let n = length text + 1 in
    (sent message n, rw (inside, send_msg-sent message n refl (omega arith)) refl)

module _ (text : Bytes) (fits : length text < buf_size) (m : Message) (type : Bytes)
    (typed : c_string (take 20 m.type) ≡ some type) (other : type ≢ width_test)
    (no_nul : has_nul m.buf ≡ false) (short : length m.buf < buf_size) (h : Heap) where
  -- The connection is made, every `send` succeeds, the pieces of the reply arrive whole, and the
  -- reply is no width test and holds the text of a list that `convert_buf_to_node` reads whole,
  -- without a NUL and with a size that counts the NUL behind it; the file that is sent is shorter
  -- than a buffer. Then `register_node` puts the text into the file and returns that list, built
  -- in fresh cells.
  pub register_node-render :
      (ms : List Node)
      → m.buf ≡ render ms
      → m.size ≡ pos (length m.buf + 1)
      → 0 < h.brk
      → AllNodesFit buf_limits ms
      → length (node_lines ms) ≤ 50
      → (pieces : List Bytes) × (send_msg_over_socket all_succeed m ≡ done (pieces, pos 0))
        × (p : Ptr) × (h' : Heap) × (register_node true true all_succeed
              (arrive pieces)
              (some text)
              h
            ≡ ok (some (m.buf, p)) h')
        × Builds h ms p h'
  register_node-render ms e size positive fit few =
      let (pieces, run, received) = recv_msg-send_msg m type typed other no_nul short size in
      let (p, h', parse, b) = convert_buf_to_node-render ms h positive fit few in
      let (request, asked) = register_node-await text (arrive pieces) h fits in
      let counted : m.size ≡ pos (suc (length m.buf)) =
        size ∙ ap pos {x = length m.buf + 1} (omega arith) in
      (
        pieces,
        run,
        p,
        h',
        asked
            ∙ unfold await_reply save_reply in
              rw (received, counted, write_buf-text (with_nul type) m.buf h, e, parse) refl,
        b,
      )

  -- If the size of the reply does not count the NUL behind its text, as in the replies of
  -- `handle_register`, and all else is as above, `register_node` reads past the end of what it
  -- received.
  pub register_node_overreads :
      m.size ≡ pos (length m.buf)
      → (pieces : List Bytes) × (send_msg_over_socket all_succeed m ≡ done (pieces, pos 0))
        × (register_node true true all_succeed (arrive pieces) (some text) h ≡ fault bad_transfer)
  register_node_overreads size =
      let (pieces, run, received) = recv_msg_unterminated m type typed other no_nul short size in
      let (request, asked) = register_node-await text (arrive pieces) h fits in
      (pieces, run, asked ∙ unfold await_reply in rw received refl)
