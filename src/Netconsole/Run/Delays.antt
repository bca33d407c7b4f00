-- ===== src/Netconsole/Run/Delays.antt =====
-- internal/netconsole/bridge.go: the delays between connections.
use gomeshcom_client.Prelude.{
  ℕ, zero, suc, ◌+◌, ◌*◌, ◌/◌, ◌^◌, ◌<◌, ◌≤◌, ◌≡◌, arith, if◌then◌else◌, leb,
}
use gomeshcom_client.Netconsole.Bridge.{jitter_delay, next_delay}

-- The delay behind this many failures in a row.
abbrev pub delay_after : ℕ → ℕ → ℕ → ℕ
delay_after maximum initial zero = initial
delay_after maximum initial (suc n) = next_delay (delay_after maximum initial n) maximum

abbrev pub min : ℕ → ℕ → ℕ
min a b = if leb a b then a else b

next_delay-min : (current maximum : ℕ) → next_delay current maximum ≡ min maximum (current * 2)
unfolding next_delay
next_delay-min current maximum = ground arith

double : (a n : ℕ) → a * 2 ^ suc n ≡ a * 2 ^ n * 2
double a n = grind arith

-- The delay doubles with each connection that fails, up to the maximum.
pub delay_after-min :
    (maximum initial n : ℕ)
    → initial ≤ maximum
    → delay_after maximum initial n ≡ min maximum (initial * 2 ^ n)
delay_after-min maximum initial zero h = ground arith
delay_after-min maximum initial (suc n) h = ground (
  arith,
  double initial n,
  next_delay-min (delay_after maximum initial n) maximum,
  delay_after-min maximum initial n h,
)

-- The delay that is waited is at least half of the delay and at most all of it.
pub jitter_delay-bounds :
    (rand : ℕ → ℕ) (delay : ℕ)
    → rand (delay / 2 + 1) < delay / 2 + 1
    → (delay / 2 ≤ jitter_delay rand delay) × (jitter_delay rand delay ≤ delay)
unfolding jitter_delay
jitter_delay-bounds rand delay h = ground arith
