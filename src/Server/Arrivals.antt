-- ===== src/Server/Arrivals.antt =====
-- The loop of `thread_receive_pack` of server.c over registrations among other messages.
use vpnp2p.Prelude.{
  ℕ, ◌<◌, ◌≡◌, ◌≢◌, refl, sym, ap, ◌∙◌, true, Option, some, List, [], ◌∷◌, ◌++◌, map, arith,
}
use vpnp2p.CString.{Bytes}
use vpnp2p.Message.{Message, Outcome, done, failed, undefined}
use vpnp2p.NodeInfo.Heap.{Heap, ok}
use vpnp2p.NodeInfo.Merge.Spec.{newest, unknown, merge, merge_all}
use vpnp2p.NodeInfo.Parse.FileLines.{file_limits}
use vpnp2p.NodeInfo.Parse.ReadNodes.{AllNodesFit}
use vpnp2p.NodeInfo.Print.Render.{render}
use vpnp2p.NodeInfo.Values.{Node}
use vpnp2p.Server.Defs.{
  Handler, register_handler, regular_update_handler, width_test_handler, no_handler, dispatch, Turn,
  ignored, replied, handle, received_turn, reply_regular_update, reply_width_test,
}
use vpnp2p.Server.Fits.{merge-AllNodesFit}
use vpnp2p.Server.Loop.{
  next_file, receive_loop, registration, CanRegister, registration_turn, receive_loop_step,
}
use vpnp2p.Server.Register.{handle_register-merge}

-- What comes out of a call of `recv_msg_over_socket`: the registration of a list, or something else.
pub data Arrival : Type 0 where
  registers : List Node → Arrival
  other : Outcome Message → Arrival

abbrev pub received : Arrival → Outcome Message
received (registers ms) = registration ms
received (other msg) = msg

-- The lists that are registered, in their order.
abbrev pub registered : List Arrival → List (List Node)
registered [] = []
registered (registers ms ∷ arrivals) = ms ∷ registered arrivals
registered (other msg ∷ arrivals) = registered arrivals

-- The call failed, or returned a message that is no registration.
abbrev pub PassesBy : Outcome Message → Type 0
PassesBy (done msg) = dispatch msg ≢ register_handler
PassesBy failed = Unit {0}
PassesBy undefined = ⊥

abbrev pub OthersPassBy : List Arrival → Type 0
OthersPassBy [] = Unit {0}
OthersPassBy (registers ms ∷ arrivals) = OthersPassBy arrivals
OthersPassBy (other msg ∷ arrivals) = PassesBy msg × OthersPassBy arrivals

module _ (fuel : ℕ) (file : Option Bytes) (h : Heap) where
  -- A handler that leaves the file.
  handle_other :
      (msg : Message) (handler : Handler)
      → handler ≢ register_handler
      → (turn : Turn) × (handle fuel true msg file handler h ≡ ok turn h)
        × (next_file file turn ≡ file)
  unfolding handle
  handle_other msg register_handler ne = absurd (ne refl)
  handle_other msg regular_update_handler ne = (replied file reply_regular_update, refl, refl)
  handle_other msg width_test_handler ne = (replied file reply_width_test, refl, refl)
  handle_other msg no_handler ne = (ignored, refl, refl)

  PassesBy-turn :
      (msg : Outcome Message)
      → PassesBy msg
      → (turn : Turn) × (received_turn fuel true msg file h ≡ ok turn h)
        × (next_file file turn ≡ file)
  unfolding received_turn
  PassesBy-turn (done msg) passes = handle_other msg (dispatch msg) passes
  PassesBy-turn failed passes = (ignored, refl, refl)
  PassesBy-turn undefined passes = absurd passes

  PassesBy-loop :
      (msg : Outcome Message) (msgs : List (Outcome Message))
      → PassesBy msg
      → receive_loop fuel true (msg ∷ msgs) file h ≡ receive_loop fuel true msgs file h
  unfolding receive_loop
  PassesBy-loop msg msgs passes =
      let (turn, run, same) = PassesBy-turn msg passes in
      rw run (ap (λ f. receive_loop fuel true msgs f h) same)

-- Among the arrivals are registrations with the texts of lists that fit a message and the file
-- (`AllNodesFit`, at most 50 lines); the others failed or are no registrations. The file holds the
-- text of a list of at least one node that fits it, it can be written, and at every registration the
-- fuel exceeds the lists and the merged text is shorter than a buffer. Then the loop ends, and the
-- file holds the list that merges the registered lists, in their order, into the one that it held.
pub receive_loop-registered :
    (fuel : ℕ) (n : Node) (ns : List Node) (arrivals : List Arrival) (h : Heap)
    → 0 < h.brk
    → AllNodesFit file_limits (n ∷ ns)
    → OthersPassBy arrivals
    → CanRegister fuel (n ∷ ns) (registered arrivals)
    → (h' : Heap) × (receive_loop fuel true (map received arrivals) (some (render (n ∷ ns))) h
        ≡ ok (some (render (merge_all (n ∷ ns) (registered arrivals)))) h')
unfolding merge
receive_loop-registered fuel n ns [] h positive fits pass can = (h, unfold receive_loop in refl)
receive_loop-registered fuel n ns (other msg ∷ arrivals) h positive fits (passes, pass) can =
    let (h', run) = receive_loop-registered fuel n ns arrivals h positive fits pass can in
    (h', PassesBy-loop fuel (some (render (n ∷ ns))) h msg (map received arrivals) passes ∙ run)
receive_loop-registered fuel n ns (registers ms ∷ arrivals) h positive fits pass
      ((fit_buf, fit_file), few, room, room₂, room₃, small, can) =
    let file = some (render (n ∷ ns)) in
    let (h₁, run, grows) =
      handle_register-merge fuel n ns ms h positive fit_buf few fits room room₂ room₃ small in
    let (h₂, rest) =
      receive_loop-registered fuel (newest ms n) (map (newest ms) ns ++ unknown (n ∷ ns) ms)
        arrivals h₁ (omega arith) (merge-AllNodesFit file_limits (n ∷ ns) ms fits fit_file) pass
        can in
    (
      h₂,
      receive_loop_step fuel (registration ms) (map received arrivals) file _ _ h h₁
            (registration_turn fuel file _ _ ms h h₁ run)
          ∙ rest,
    )

only_registered : (mss : List (List Node)) → registered (map registers mss) ≡ mss
only_registered [] = refl
only_registered (ms ∷ mss) = ap (◌∷◌ ms) (only_registered mss)

only_received : (mss : List (List Node)) → map received (map registers mss) ≡ map registration mss
only_received [] = refl
only_received (ms ∷ mss) = ap (◌∷◌ (registration ms)) (only_received mss)

only_pass : (mss : List (List Node)) → OthersPassBy (map registers mss)
only_pass [] = tt
only_pass (ms ∷ mss) = only_pass mss

-- The messages of a sequence are registrations with the texts of lists that fit a message and the
-- file (`AllNodesFit`, at most 50 lines), the file holds the text of a list of at least one node
-- that fits it, and at every turn the fuel exceeds the lists and the merged text is shorter than a
-- buffer. Then after all turns the file holds the list that merges them, in their order, into the
-- list that it held at first.
pub receive_loop-merge_all :
    (fuel : ℕ) (n : Node) (ns : List Node) (mss : List (List Node)) (h : Heap)
    → 0 < h.brk
    → AllNodesFit file_limits (n ∷ ns)
    → CanRegister fuel (n ∷ ns) mss
    → (h' : Heap) × (receive_loop fuel true (map registration mss) (some (render (n ∷ ns))) h
        ≡ ok (some (render (merge_all (n ∷ ns) mss))) h')
receive_loop-merge_all fuel n ns mss h positive fits can =
    let (h', run) =
      receive_loop-registered fuel n ns (map registers mss) h positive fits (only_pass mss)
        (rw (only_registered mss) can) in
    (
      h',
      ap (λ msgs. receive_loop fuel true msgs (some (render (n ∷ ns))) h) (sym (only_received mss))
          ∙ run
          ∙ ap (λ l. ok (some (render (merge_all (n ∷ ns) l))) h') (only_registered mss),
    )
