-- ===== src/PunchServer/Answers.antt =====
-- What the server of PunchTest/udp_server.c sends.
use mathlib.Core.List.{append-nil, append_assoc}
use vpnp2p.Prelude.{
  ℕ, zero, suc, ◌-◌, ◌<◌, ◌≤◌, ◌≡◌, refl, sym, ap, ◌∙◌, true, false, Option, none, some, List, [],
  ◌∷◌, ◌++◌, arith, ltb, ◌==◌, if◌then◌else◌, length, take, drop, replicate, get_elem?, length-take,
  Bool-cases, inl, inr,
}
use vpnp2p.CString.{Bytes}
use vpnp2p.Message.{c_string}
use vpnp2p.Message.Bytes.{has_nul, c_string-append_nul}
use vpnp2p.CString.Equal.{str_eq_refl}
use vpnp2p.Punch
use vpnp2p.Punch.Turns.{flagged}
use vpnp2p.Punch.{Address, Client}
use vpnp2p.PunchServer.Defs.{
  Server, init_program, respond_string, overwrite, thread_receive_pack, receive_all,
}

-- The packets that arrive, each shorter than the buffer.
abbrev pub AllShort : List (Option (Bytes × Address)) → Type 0
AllShort [] = Unit {0}
AllShort (none ∷ packets) = AllShort packets
AllShort (some (packet, from) ∷ packets) = (length packet < 512) × AllShort packets

-- An answer to the sender of each packet.
abbrev pub answers : Bytes → List (Option (Bytes × Address)) → List (Bytes × Address)
answers text [] = []
answers text (none ∷ packets) = answers text packets
answers text (some (packet, from) ∷ packets) = (text, from) ∷ answers text packets

-- The buffer ends with a NUL, and the thread runs.
record Listens (s : Server) : Type 0 where
  last : get_elem? s.buf 511 ≡ some 0
  threadflag : s.threadflag ≡ 0
  running : s.running ≡ true

get_elem?-replicate {ℓ} :
    {A : Type ℓ} (n i : ℕ) (a : A) → i < n → get_elem? (replicate n a) i ≡ some a
get_elem?-replicate zero i a h = elim h [ ]
get_elem?-replicate (suc n) zero a h = refl
get_elem?-replicate (suc n) (suc i) a h = get_elem?-replicate n i a (omega arith)

take-short {ℓ} : {A : Type ℓ} (n : ℕ) (xs : List A) → length xs ≤ n → take n xs ≡ xs
take-short zero [] h = refl
take-short zero (x ∷ xs) h = absurd (omega arith)
take-short (suc n) [] h = refl
take-short (suc n) (x ∷ xs) h = ap (◌∷◌ x) (take-short n xs (omega arith))

drop-nil {ℓ} : {A : Type ℓ} (n : ℕ) → drop {A = A} n [] ≡ []
drop-nil zero = refl
drop-nil (suc n) = refl

-- A list that is put over the front of another leaves what lies behind it.
get_elem?-over {ℓ} :
    {A : Type ℓ} (xs ys : List A) (i : ℕ)
    → length xs ≤ i
    → get_elem? (xs ++ drop (length xs) ys) i ≡ get_elem? ys i
get_elem?-over [] ys i h = refl
get_elem?-over (x ∷ xs) ys zero h = absurd (omega arith)
get_elem?-over (x ∷ xs) [] (suc i) h =
    ap (λ zs. get_elem? (xs ++ zs) i) (sym (drop-nil (length xs)))
    ∙ get_elem?-over xs [] i (omega arith)
get_elem?-over (x ∷ xs) (y ∷ ys) (suc i) h = get_elem?-over xs ys i (omega arith)

c_string-some : (s : Bytes) (i : ℕ) → get_elem? s i ≡ some 0 → (t : Bytes) × (c_string s ≡ some t)
unfolding c_string
c_string-some [] i h = cc
c_string-some (c ∷ s) zero h = let q : c ≡ 0 = cc in ([], ground arith)
c_string-some (c ∷ s) (suc i) h =
    let (t, e) = c_string-some s i h in
    elim (Bool-cases (c == 0)) [ inl q ↦ ([], rw q refl) | inr q ↦ (c ∷ t, rw (q, e) refl) ]

-- One turn on a short packet answers it.
turn-Listens :
    (respond packet : Bytes) (from : Address) (s : Server)
    → length packet < 512
    → Listens s
    → (s' : Server) × (thread_receive_pack respond (some (packet, from)) s ≡ some s')
      × Listens s'
      × (s'.log ≡ s.log ++ (take 6 respond, from) ∷ [])
unfolding thread_receive_pack
turn-Listens respond packet from s short l =
    let b = overwrite packet s.buf in
    let end : get_elem? b 511 ≡ some 0 =
      get_elem?-over (take 512 packet) s.buf 511
        (omega (arith, ap (λ (x : Bytes). length x) (take-short 512 packet (omega arith))))
      ∙ l.last in
    let (text, str) = c_string-some b 511 end in
    let silent : (s.threadflag == 1) ≡ false = ground (arith, l.threadflag) in
    (
      record s { buf = b; si_other = from; log = s.log ++ (take 6 respond, from) ∷ [] },
      rw (silent, str) refl,
      record { last = end; threadflag = l.threadflag; running = l.running },
      refl,
    )

receive_all_step :
    (respond : Bytes) (packet : Option (Bytes × Address))
    (packets : List (Option (Bytes × Address))) (s s₁ : Server)
    → thread_receive_pack respond packet s ≡ some s₁
    → s₁.running ≡ true
    → receive_all respond (packet ∷ packets) s ≡ receive_all respond packets s₁
unfolding receive_all
receive_all_step respond packet packets s s₁ turn on =
    rw (turn, receive_all) (ap (λ b. if b then receive_all respond packets s₁ else some s₁) on)

receive_all-answers :
    (respond : Bytes) (packets : List (Option (Bytes × Address))) (s : Server)
    → AllShort packets
    → Listens s
    → (s' : Server) × (receive_all respond packets s ≡ some s')
      × Listens s'
      × (s'.log ≡ s.log ++ answers (take 6 respond) packets)
unfolding receive_all
receive_all-answers respond [] s short l = (s, refl, l, sym (append-nil s.log))
receive_all-answers respond (none ∷ packets) s short l =
    let (s', run, l', log) = receive_all-answers respond packets s short l in
    (
      s',
      receive_all_step respond none packets s s (unfold thread_receive_pack in refl) l.running
          ∙ run,
      l',
      log,
    )
receive_all-answers respond (some (packet, from) ∷ packets) s (short, rest) l =
    let (s₁, turn, l₁, log₁) = turn-Listens respond packet from s short l in
    let (s', run, l', log) = receive_all-answers respond packets s₁ rest l₁ in
    (
      s',
      receive_all_step respond (some (packet, from)) packets s s₁ turn l₁.running ∙ run,
      l',
      log
          ∙ ap (λ x. x ++ answers (take 6 respond) packets) log₁
          ∙ append_assoc s.log ((take 6 respond, from) ∷ []) (answers (take 6 respond) packets),
    )

take-append {ℓ} :
    {A : Type ℓ} (n : ℕ) (xs ys : List A)
    → length xs ≤ n
    → take n (xs ++ ys) ≡ xs ++ take (n - length xs) ys
take-append n [] ys h = ap (λ k. take k ys) {y = n - 0} (omega arith)
take-append zero (x ∷ xs) ys h = absurd (omega arith)
take-append (suc n) (x ∷ xs) ys h = ap (◌∷◌ x) (
    take-append n xs ys (omega arith)
    ∙ ap (λ k. xs ++ take k ys) {x = n - length xs} {y = suc n - suc (length xs)} (omega arith))

take-replicate {ℓ} : {A : Type ℓ} (k m : ℕ) (a : A) → k ≤ m → take k (replicate m a) ≡ replicate k a
take-replicate zero m a h = refl
take-replicate (suc k) zero a h = absurd (omega arith)
take-replicate (suc k) (suc m) a h = ap (◌∷◌ a) (take-replicate k m a (omega arith))

replicate-snoc {ℓ} : {A : Type ℓ} (k : ℕ) (a : A) → replicate k a ++ a ∷ [] ≡ a ∷ replicate k a
replicate-snoc zero a = refl
replicate-snoc (suc k) a = ap (◌∷◌ a) (replicate-snoc k a)

-- The six bytes that are sent, with a NUL behind them, are the string.
answer-c_string :
    (argument : Bytes)
    → length argument ≤ 6
    → has_nul argument ≡ false
    → c_string (take 6 (argument ++ replicate (100 - length argument) 0) ++ 0 ∷ []) ≡ some argument
answer-c_string argument short no_nul =
    let k = 6 - length argument in
    let pad : Bytes = replicate (100 - length argument) 0 in
    let six : take 6 (argument ++ pad) ≡ argument ++ replicate k 0 =
      take-append 6 argument pad short
      ∙ ap (λ s. argument ++ s) (take-replicate k (100 - length argument) 0 (omega arith)) in
    ap (λ s. c_string (s ++ 0 ∷ [])) six
    ∙ ap c_string (append_assoc argument (replicate k 0) (0 ∷ []))
    ∙ ap (λ s. c_string (argument ++ s)) (replicate-snoc k 0)
    ∙ c_string-append_nul argument (replicate k 0) no_nul

client-flagged :
    (argument answer : Bytes) (from : Address) (c : Client)
    → c_string (answer ++ 0 ∷ []) ≡ some argument
    → length answer < 128
    → Punch.thread_receive_pack argument (some (answer, from)) c ≡ some (flagged from c)
unfolding Punch.thread_receive_pack
client-flagged argument answer from c str short =
    let small : ltb (length answer) 128 ≡ true = ground arith in
    rw (small, str, str_eq_refl argument) refl

-- The server is started with a string of at most 6 bytes and without a NUL, and every packet that
-- arrives is shorter than the 512 bytes of the buffer. Then its thread does not end, and sends one
-- answer to the sender of each packet, in their order, and nothing else. A client that waits for
-- this string takes the answer for it: it sets both flags.
pub receive_all-answers_flag :
    (argument : Bytes) (host : ℕ) (packets : List (Option (Bytes × Address)))
    → length argument ≤ 6
    → has_nul argument ≡ false
    → AllShort packets
    → (respond : Bytes) × (s : Server) × (respond_string argument ≡ some respond)
      × (receive_all respond packets (init_program host) ≡ some s)
      × (s.running ≡ true)
      × (s.log ≡ answers (take 6 respond) packets)
      × ((from : Address) (c : Client)
          → Punch.thread_receive_pack argument (some (take 6 respond, from)) c
            ≡ some (flagged from c))
receive_all-answers_flag argument host packets short no_nul packets_short =
    let respond = argument ++ replicate (100 - length argument) 0 in
    let (s, run, l, log) =
      receive_all-answers respond packets (init_program host) packets_short (record {
        last = get_elem?-replicate 512 511 0 (omega arith);
        threadflag = refl;
        running = refl;
      }) in
    (
      respond,
      s,
      unfold respond_string in ground arith,
      run,
      l.running,
      log,
      λ from c.
          client-flagged argument (take 6 respond) from c (answer-c_string argument short no_nul)
            (omega (arith, length-take 6 respond)),
    )
