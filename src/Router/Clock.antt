-- ===== src/Router/Clock.antt =====
-- The times that `router_refresh` measures.
use vpnp2p.Prelude.{
  ℕ, ◌+◌, ◌*◌, ◌/◌, ◌^◌, ◌<◌, ◌≡◌, refl, true, List, ℤ, pos, of_parts, sub_ℤ, arith,
}
use vpnp2p.CString.{Bytes, is_int}
use vpnp2p.Message
use vpnp2p.Message.{Message, recv_msg_over_socket}
use vpnp2p.Pairs.{done, width_over, WidthAndDelay}
use vpnp2p.Router.Defs.{
  Exchange, check_sent, check_received, exchange, to_int, duration, half, width_divisor,
}

-- The exchange succeeds, and takes `d` ticks of the clock.
pub record Succeeds (x : Exchange) (sent : Message.Outcome (List Bytes × ℤ)) (d : ℕ) : Type 0 where
  pub opens : x.opens ≡ true
  pub connects : x.connects ≡ true
  pub sends : check_sent sent ≡ done tt
  pub received : check_received (recv_msg_over_socket x.answers) ≡ done tt
  pub begin : ℕ
  pub start : x.start ≡ pos begin
  pub finish : x.finish ≡ pos (begin + d)
  pub short : d < 2 ^ 31

-- What is stored for two exchanges that took `d₁` and `d₂` ticks: half of the first, and 512 KB per
-- what the second took longer than twice that.
abbrev pub measured : ℕ → ℕ → WidthAndDelay
measured d₁ d₂ = record { delay = pos (d₁ / 2); width = width_over (of_parts d₂ (d₁ / 2 * 2)) }

sub_later : (s d : ℕ) → sub_ℤ (pos (s + d)) (pos s) ≡ pos d
sub_later s d = ground arith

to_int_short : (d : ℕ) → d < 2 ^ 31 → to_int (pos d) ≡ pos d
unfolding to_int
to_int_short d short = ground arith

is_int-of_parts : (m n : ℕ) → m < 2 ^ 31 → n < 2 ^ 31 → is_int (of_parts m n) ≡ true
unfolding is_int
is_int-of_parts m n low low₂ = ground arith

module _ (x : Exchange) (sent : Message.Outcome (List Bytes × ℤ)) (d : ℕ)
    (e : Succeeds x sent d) where
  pub exchange-ok : exchange x sent ≡ done tt
  unfolding exchange
  exchange-ok = rw (e.opens, e.connects, e.sends) e.received

  pub duration-ok : duration x ≡ pos d
  unfolding duration
  duration-ok = rw (e.start, e.finish, sub_later e.begin d) (to_int_short d e.short)

pub half-pos : (d : ℕ) → half (pos d) ≡ pos (d / 2)
unfolding half
half-pos d = refl

pub width_divisor-ok :
    (d₁ d₂ : ℕ)
    → d₁ < 2 ^ 31
    → d₂ < 2 ^ 31
    → width_divisor (pos d₂) (pos (d₁ / 2)) ≡ done (of_parts d₂ (d₁ / 2 * 2))
unfolding width_divisor
width_divisor-ok d₁ d₂ low low₂ =
    let even : sub_ℤ (pos d₂) (pos (d₁ / 2 * 2)) ≡ of_parts d₂ (d₁ / 2 * 2) = ground arith in
    rw (even, is_int-of_parts d₂ (d₁ / 2 * 2) low₂ (omega arith)) refl
