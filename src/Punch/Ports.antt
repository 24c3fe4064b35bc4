-- ===== src/Punch/Ports.antt =====
-- The ports that `thread_punching` of PunchTest/udp_client.c tries.
use vpnp2p.Prelude.{ℕ, zero, suc, ◌-◌, ◌%◌, ◌≤◌, ◌<◌, ◌≡◌, ap, List, ◌∷◌, arith}
use vpnp2p.Punch.Defs.{Send, punched, Client, init_program, punch_server}

-- The state after `n` turns of the punching thread alone.
abbrev pub after : ℕ → Client → Client
after zero c = c
after (suc n) c = punch_server (after n c)

cnt_after : (n server : ℕ) → (after n (init_program server)).cnt ≡ n % 65535
unfolding punch_server
cnt_after zero server = omega arith
cnt_after (suc n) server = omega (arith, cnt_after n server)

-- The turn with number `n + 1` sends to this port; the first one sends to 65535.
pub test_port-after :
    (n server : ℕ) → (after (suc n) (init_program server)).test_port ≡ 65535 - n % 65535
unfolding punch_server
test_port-after n server = omega (arith, cnt_after n server)

-- If the thread that punches runs alone, in the loop of a `type` other than 1, then for every port
-- but 0 one of its first 65536 turns sends to that port.
pub every_port :
    (p server : ℕ)
    → 0 < p
    → p ≤ 65535
    → (n : ℕ) × (n ≤ 65535)
      × (rest : List Send) × ((after (suc n) (init_program server)).log ≡ punched p ∷ rest)
unfolding punch_server
every_port p server positive low =
    let m = 65535 - p in
    let c = after (suc m) (init_program server) in
    let q : c.test_port ≡ p = omega (arith, test_port-after m server) in
    (suc m, omega arith, c.log, ap (λ k. punched k ∷ c.log) q)
