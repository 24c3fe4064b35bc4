-- ===== src/Punch/Turns.antt =====
-- A turn of one thread of PunchTest/udp_client.c, while the others rest, is a sequence of its steps.
use vpnp2p.Prelude.{
  ℕ, ◌+◌, ◌%◌, ◌^◌, ◌≡◌, refl, true, false, Option, none, some, [], ◌∷◌, ◌++◌, arith, ◌==◌, ltb,
  Bool-cases, inl, inr, length,
}
use mathlib.Core.Path.{subst}
use vpnp2p.CString.{Bytes}
use vpnp2p.Message.{c_string, is_string}
use vpnp2p.Punch.Defs.{
  Address, Client, thread_heartbeat, thread_receive_pack, punch_client, punch_server,
  thread_punching, count_time,
}
use vpnp2p.Punch.Steps.{
  receiving, sending, testing_print, clearing_print, moving, Threads, receive, set_threadflag,
  test_heartbeat, beat, punch, test_print, clear_print, move, test_flag, count, Step, receives,
  flags, heartens, tests_heartbeat, beats, punches, tests_print, clears_print, moves, tests_flag,
  counts, Steps, rest, more,
}
use vpnp2p.Punch.Threads.{heard, heard_string, some_injective}

-- The string that was waited for sets both flags.
abbrev pub flagged : Address → Client → Client
flagged from c = record c {
  si_other = from;
  receive_times = (c.receive_times + 1) % 2 ^ 16;
  threadflag = 1;
  heartbeat = 1;
}

-- No thread stands inside a turn.
abbrev pub resting : Client → Threads
resting c = record { client = c; receiver = receiving; beating = false; puncher = sending }

module _ (recv_string : Bytes) (type : ℕ) where
  one : (t u : Threads) → Step recv_string type t u → Steps recv_string type t u
  one t u step = more t t u (rest t) step

  thread_receive_pack-Steps :
      (packet : Option (Bytes × Address)) (c d : Client)
      → thread_receive_pack recv_string packet c ≡ some d
      → Steps recv_string type (resting c) (resting d)
  unfolding thread_receive_pack receive
  thread_receive_pack-Steps none c d e =
      subst (λ x. Steps recv_string type (resting c) (resting x)) (some_injective e)
        (rest (resting c))
  thread_receive_pack-Steps (some (packet, from)) c d e =
      let t = resting c in
      let ours = is_string (c_string (packet ++ 0 ∷ [])) recv_string in
      elim (Bool-cases (ltb (length packet) 128)) [
        | inl small ↦ elim (Bool-cases ours) [
          | inl q ↦
              let run : receive recv_string (some (packet, from)) t ≡ some (heard_string from t) =
                ground arith in
              let u = heard_string from t in
              let same : flagged from c ≡ d = ground arith in
              subst (λ x. Steps recv_string type (resting c) (resting x)) same
                (more t (set_threadflag u) (resting (flagged from c))
                  (more t u (set_threadflag u)
                    (one t u (receives (some (packet, from)) t u refl run)) (flags u refl))
                  (heartens (set_threadflag u) refl))
          | inr q ↦
              let run : receive recv_string (some (packet, from)) t ≡ some (heard from t) =
                ground arith in
              let same : record c { si_other = from } ≡ d = ground arith in
              subst (λ x. Steps recv_string type (resting c) (resting x)) same
                (one t (heard from t) (receives (some (packet, from)) t (heard from t) refl run))
        ]
        | inr large ↦ ground arith
      ]

  thread_heartbeat-Steps :
      (c : Client) → Steps recv_string type (resting c) (resting (thread_heartbeat c))
  unfolding thread_heartbeat
  thread_heartbeat-Steps c =
      let t = resting c in
      let tested = one t (test_heartbeat t) (tests_heartbeat t refl) in
      elim (Bool-cases (c.heartbeat == 1)) [
        | inl q ↦ let u = test_heartbeat t in rw q (more t u (beat u) tested (beats u q))
        | inr q ↦
            let same : test_heartbeat t ≡ t = rw q refl in
            rw q (subst (Steps recv_string type t) same tested)
      ]

  count_time-Steps : (c : Client) → Steps recv_string type (resting c) (resting (count_time c))
  unfolding count
  count_time-Steps c = one (resting c) (count (resting c)) (counts (resting c))

  -- The end of the turn of the thread that punches, from the choice of the port on.
  moved-Steps :
      (t u : Threads)
      → Steps recv_string type t u
      → u.puncher ≡ moving
      → Steps recv_string type t (test_flag (move type u))
  moved-Steps t u steps at =
      more t (move type u) (test_flag (move type u)) (more t u (move type u) steps (moves u at))
        (tests_flag (move type u) refl)

  thread_punching-Steps :
      (c : Client)
      → c.punching ≡ true
      → Steps recv_string type (resting c) (resting (thread_punching type c))
  unfolding thread_punching punch_client punch_server
  thread_punching-Steps c on =
      let t = resting c in
      let u = punch type t in
      let sent = one t u (punches t on refl) in
      elim (Bool-cases (type == 1)) [
        | inl q ↦
            let at : u.puncher ≡ moving = rw q refl in
            let same : test_flag (move type u) ≡ resting (thread_punching type c) = rw q refl in
            subst (Steps recv_string type t) same (moved-Steps t u sent at)
        | inr q ↦
            let at : u.puncher ≡ testing_print = rw q refl in
            let v = test_print u in
            let tested = more t u v sent (tests_print u at) in
            elim (Bool-cases (c.if_print == 1)) [
              | inl r ↦
                  let clears : v.puncher ≡ clearing_print = rw r refl in
                  let w = clear_print v in
                  let same : test_flag (move type w) ≡ resting (thread_punching type c) =
                    rw (q, r) refl in
                  subst (Steps recv_string type t) same
                    (moved-Steps t w (more t v w tested (clears_print v clears)) refl)
              | inr r ↦
                  let at₂ : v.puncher ≡ moving = rw r refl in
                  let same : test_flag (move type v) ≡ resting (thread_punching type c) =
                    rw (q, r) refl in
                  subst (Steps recv_string type t) same (moved-Steps t v tested at₂)
            ]
      ]
