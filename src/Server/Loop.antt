-- ===== src/Server/Loop.antt =====
-- The loop of `thread_receive_pack` of server.c over a sequence of registrations.
use vpnp2p.Prelude.{ℕ, ◌+◌, ◌≤◌, ◌<◌, ◌≡◌, refl, Bool, true, Option, List, [], ◌∷◌, pos, length}
use vpnp2p.CString.{Bytes}
use vpnp2p.Message.{Message, Outcome, done, buf_size, register, with_nul}
use vpnp2p.NodeInfo.Heap.{Heap, Cmd, ok, pure, ◌>>=◌}
use vpnp2p.NodeInfo.Merge.Spec.{merge}
use vpnp2p.NodeInfo.Parse.BufLines.{buf_limits}
use vpnp2p.NodeInfo.Parse.FileLines.{file_limits}
use vpnp2p.NodeInfo.Parse.ReadNodes.{AllNodesFit}
use vpnp2p.NodeInfo.Print.Render.{node_lines, render, cells}
use vpnp2p.NodeInfo.Values.{Node}
use vpnp2p.Server.Defs.{handle_register, Turn, stopped, ignored, replied, handle, received_turn}
use vpnp2p.Server.Turn.{dispatch-register}

-- How the loop goes on from what a turn left.
abbrev pub next_file : Option Bytes → Turn → Option Bytes
next_file file stopped = file
next_file file ignored = file
next_file file (replied file' reply) = file'

-- The contents of the file after the turns on these messages.
unfoldable pub receive_loop : ℕ → Bool → List (Outcome Message) → Option Bytes → Cmd (Option Bytes)
unfolding received_turn
receive_loop fuel opens [] file = pure file
receive_loop fuel opens (msg ∷ msgs) file = do
  turn ← received_turn fuel opens msg file
  receive_loop fuel opens msgs (next_file file turn)

-- The messages that register these lists.
abbrev pub registration : List Node → Outcome Message
registration ms =
    done (record { type = with_nul register; buf = render ms; size = pos (length (render ms) + 1) })

-- Each list fits a message and the file, and there is room for what it is merged into.
abbrev pub CanRegister : ℕ → List Node → List (List Node) → Type 0
CanRegister fuel ns [] = Unit {0}
CanRegister fuel ns (ms ∷ mss) =
    (AllNodesFit buf_limits ms × AllNodesFit file_limits ms)
    × (length (node_lines ms) ≤ 50)
    × (length ns < fuel)
    × (length ms < fuel)
    × (cells (merge ns ms) < fuel)
    × (length (render (merge ns ms)) < buf_size)
    × CanRegister fuel (merge ns ms) mss

pub registration_turn :
    (fuel : ℕ) (file file' : Option Bytes) (reply : Message) (ms : List Node) (h h' : Heap)
    → handle_register fuel true (render ms) file h ≡ ok (file', reply) h'
    → received_turn fuel true (registration ms) file h ≡ ok (replied file' reply) h'
unfolding received_turn handle
registration_turn fuel file file' reply ms h h' run =
    rw (dispatch-register (render ms)) (rw run refl)

pub receive_loop_step :
    (fuel : ℕ) (msg : Outcome Message) (msgs : List (Outcome Message)) (file file' : Option Bytes)
    (reply : Message) (h h' : Heap)
    → received_turn fuel true msg file h ≡ ok (replied file' reply) h'
    → receive_loop fuel true (msg ∷ msgs) file h ≡ receive_loop fuel true msgs file' h'
unfolding receive_loop
receive_loop_step fuel msg msgs file file' reply h h' turn = rw turn refl
