-- ===== src/Punch/Threads.antt =====
-- How the threads of PunchTest/udp_client.c act together, in any order of their steps.
use vpnp2p.Prelude.{
  ℕ, ◌+◌, ◌%◌, ◌^◌, ◌≡◌, refl, Bool, true, false, Option, none, some, List, [], ◌∷◌, ◌++◌, arith,
  ◌==◌, ◌⊎◌, inl, inr, Bool-cases, ltb, length,
}
use mathlib.Core.Path.{subst}
use vpnp2p.CString.{Bytes}
use vpnp2p.Message.{c_string, is_string}
use vpnp2p.Punch.Defs.{Address, Send, punched, beaten, count_time}
use vpnp2p.Punch.Steps.{
  receiving, flagging, heartening, Threads, at_start, receive, set_threadflag, set_heartbeat,
  test_heartbeat, beat, punch, test_print, clear_print, move, test_flag, count, Step, receives,
  flags, heartens, tests_heartbeat, beats, punches, tests_print, clears_print, moves, tests_flag,
  counts, Steps, rest, more,
}

pub some_injective : {A : Type 0} {a b : A} → some a ≡ some b → a ≡ b
some_injective e = cc

abbrev pub has_beat : List Send → Bool
has_beat [] = false
has_beat (punched p ∷ log) = has_beat log
has_beat (beaten a ∷ log) = true

-- `threadflag` is set first and `heartbeat` right behind it. Nothing is sent as a heartbeat before the
-- second, and the hole is punched on before the first.
pub record Flags (t : Threads) : Type 0 where
  pub flag_binary : (t.client.threadflag ≡ 0) ⊎ (t.client.threadflag ≡ 1)
  pub heart_binary : (t.client.heartbeat ≡ 0) ⊎ (t.client.heartbeat ≡ 1)
  pub order : t.client.heartbeat ≡ 1 → t.client.threadflag ≡ 1
  pub gap : t.client.threadflag ≡ 1 → t.client.heartbeat ≡ 0 → t.receiver ≡ heartening
  pub flagged_first : t.receiver ≡ heartening → t.client.threadflag ≡ 1
  pub quiet : t.client.heartbeat ≡ 0 → has_beat t.client.log ≡ false
  pub unread : t.client.heartbeat ≡ 0 → t.beating ≡ false
  pub punching : t.client.threadflag ≡ 0 → t.client.punching ≡ true

-- What the flags say depends on these parts of the state only.
Flags-same :
    (t u : Threads)
    → u.client.threadflag ≡ t.client.threadflag
    → u.client.heartbeat ≡ t.client.heartbeat
    → u.receiver ≡ t.receiver
    → u.beating ≡ t.beating
    → u.client.punching ≡ t.client.punching
    → has_beat u.client.log ≡ has_beat t.client.log
    → Flags t
    → Flags u
Flags-same t u a b c d e l f = record {
  flag_binary = rw a f.flag_binary;
  heart_binary = rw b f.heart_binary;
  order = rw (a, b) f.order;
  gap = rw (a, b, c) f.gap;
  flagged_first = rw (a, c) f.flagged_first;
  quiet = rw (b, l) f.quiet;
  unread = rw (b, d) f.unread;
  punching = rw (a, e) f.punching;
}

-- What a packet leaves, if it is not the string that was waited for, and if it is.
abbrev pub heard : Address → Threads → Threads
heard from t = record t { client = record t.client { si_other = from } }

abbrev pub heard_string : Address → Threads → Threads
heard_string from t = record t {
  client = record t.client {
    si_other = from;
    receive_times = (t.client.receive_times + 1) % 2 ^ 16;
  };
  receiver = flagging;
}

heard_string-Flags :
    (from : Address) (t : Threads) → t.receiver ≡ receiving → Flags t → Flags (heard_string from t)
heard_string-Flags from t at f = record {
  flag_binary = f.flag_binary;
  heart_binary = f.heart_binary;
  order = f.order;
  gap = λ a b. let r = f.gap a b in cc;
  flagged_first = λ r. cc;
  quiet = f.quiet;
  unread = f.unread;
  punching = f.punching;
}

receive-Flags :
    (recv_string : Bytes) (packet : Option (Bytes × Address)) (t u : Threads)
    → t.receiver ≡ receiving
    → receive recv_string packet t ≡ some u
    → Flags t
    → Flags u
unfolding receive
receive-Flags recv_string none t u at e f = subst Flags (some_injective e) f
receive-Flags recv_string (some (packet, from)) t u at e f =
    let ours = is_string (c_string (packet ++ 0 ∷ [])) recv_string in
    elim (Bool-cases (ltb (length packet) 128)) [
      | inl small ↦ elim (Bool-cases ours) [
        | inl q ↦
            let same : heard_string from t ≡ u = ground arith in
            subst Flags same (heard_string-Flags from t at f)
        | inr q ↦
            let same : heard from t ≡ u = ground arith in
            subst Flags same (Flags-same t (heard from t) refl refl refl refl refl refl f)
      ]
      | inr large ↦ ground arith
    ]

set_threadflag-Flags : (t : Threads) → Flags t → Flags (set_threadflag t)
set_threadflag-Flags t f = record {
  flag_binary = inr refl;
  heart_binary = f.heart_binary;
  order = λ e. refl;
  gap = λ a b. refl;
  flagged_first = λ r. refl;
  quiet = f.quiet;
  unread = f.unread;
  punching = λ z. ground arith;
}

set_heartbeat-Flags : (t : Threads) → t.receiver ≡ heartening → Flags t → Flags (set_heartbeat t)
set_heartbeat-Flags t at f = record {
  flag_binary = f.flag_binary;
  heart_binary = inr refl;
  order = λ e. f.flagged_first at;
  gap = λ a b. ground arith;
  flagged_first = λ r. cc;
  quiet = λ z. ground arith;
  unread = λ z. ground arith;
  punching = f.punching;
}

test_heartbeat-Flags : (t : Threads) → Flags t → Flags (test_heartbeat t)
test_heartbeat-Flags t f = record {
  flag_binary = f.flag_binary;
  heart_binary = f.heart_binary;
  order = f.order;
  gap = f.gap;
  flagged_first = f.flagged_first;
  quiet = f.quiet;
  unread = λ z. ground arith;
  punching = f.punching;
}

beat-Flags : (t : Threads) → t.beating ≡ true → Flags t → Flags (beat t)
beat-Flags t on f = record {
  flag_binary = f.flag_binary;
  heart_binary = f.heart_binary;
  order = f.order;
  gap = f.gap;
  flagged_first = f.flagged_first;
  quiet = λ z. let off = f.unread z in cc;
  unread = λ z. refl;
  punching = f.punching;
}

test_flag-Flags : (t : Threads) → Flags t → Flags (test_flag t)
test_flag-Flags t f = record {
  flag_binary = f.flag_binary;
  heart_binary = f.heart_binary;
  order = f.order;
  gap = f.gap;
  flagged_first = f.flagged_first;
  quiet = f.quiet;
  unread = f.unread;
  punching = λ z. ground arith;
}

move-Flags : (type : ℕ) (t : Threads) → Flags t → Flags (move type t)
move-Flags type t f = elim (Bool-cases (type == 1)) [
  | inl q ↦ Flags-same t (move type t) (rw q refl) (rw q refl) refl refl (rw q refl) (rw q refl) f
  | inr q ↦ Flags-same t (move type t) (rw q refl) (rw q refl) refl refl (rw q refl) (rw q refl) f
]

count-Flags : (t : Threads) → Flags t → Flags (count t)
unfolding count count_time
count-Flags t f = Flags-same t (count t) refl refl refl refl refl refl f

Step-Flags :
    (recv_string : Bytes) (type : ℕ) (t u : Threads) → Step recv_string type t u → Flags t → Flags u
Step-Flags recv_string type a b (receives packet t u at e) f =
    receive-Flags recv_string packet t u at e f
Step-Flags recv_string type a b (flags t at) f = set_threadflag-Flags t f
Step-Flags recv_string type a b (heartens t at) f = set_heartbeat-Flags t at f
Step-Flags recv_string type a b (tests_heartbeat t at) f = test_heartbeat-Flags t f
Step-Flags recv_string type a b (beats t on) f = beat-Flags t on f
Step-Flags recv_string type a b (punches t on at) f =
    Flags-same t (punch type t) refl refl refl refl refl refl f
Step-Flags recv_string type a b (tests_print t at) f =
    Flags-same t (test_print t) refl refl refl refl refl refl f
Step-Flags recv_string type a b (clears_print t at) f =
    Flags-same t (clear_print t) refl refl refl refl refl refl f
Step-Flags recv_string type a b (moves t at) f = move-Flags type t f
Step-Flags recv_string type a b (tests_flag t at) f = test_flag-Flags t f
Step-Flags recv_string type a b (counts t) f = count-Flags t f

at_start-Flags : (server : ℕ) → Flags (at_start server)
at_start-Flags server = record {
  flag_binary = inl refl;
  heart_binary = inl refl;
  order = λ e. ground arith;
  gap = λ a b. ground arith;
  flagged_first = λ r. cc;
  quiet = λ z. refl;
  unread = λ z. refl;
  punching = λ z. refl;
}

keep-Flags :
    (recv_string : Bytes) (type : ℕ) (t u : Threads)
    → Steps recv_string type t u
    → Flags t
    → Flags u
keep-Flags recv_string type t u (rest v) f = f
keep-Flags recv_string type t u (more a b c steps step) f =
    Step-Flags recv_string type b c step (keep-Flags recv_string type a b steps f)

-- In every state that the threads reach from the start, in any order of their steps, `threadflag` and
-- `heartbeat` are 0 or 1. The second is 1 only if the first is, and they differ only while the
-- receiving thread stands between the two assignments. As long as `heartbeat` is 0 no heartbeat has
-- been sent and none is about to be, and as long as `threadflag` is 0 the thread that punches has not
-- ended.
pub Steps-Flags :
    (recv_string : Bytes) (type server : ℕ) (t : Threads)
    → Steps recv_string type (at_start server) t
    → Flags t
Steps-Flags recv_string type server t steps =
    keep-Flags recv_string type (at_start server) t steps (at_start-Flags server)
