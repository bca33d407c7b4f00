-- ===== src/SerialBridge/Run/Reconnect.antt =====
-- internal/serialbridge/bridge.go: how `Run` returns to a connection, and the delays on the way.
use gomeshcom_client.Prelude.{ℕ, ◌+◌, ◌*◌, ◌/◌, ◌≤◌, ◌<◌, ◌≡◌, ◌≢◌, ◌⊎◌, refl, Option, some, arith}
use gomeshcom_client.SerialBridge.Link.{
  SerialError, eof, Config, connected_session, is_connected, set_connected, install_session,
  add_session, jitter_delay, next_delay,
}
use gomeshcom_client.SerialBridge.Run.{
  Phase, idle, top, opening, greeting, reading, lost, waiting, read_failed, Runner, attempt, opened,
  enabled, back_off, waited,
}
use gomeshcom_client.SerialBridge.Run.Sound.{
  Reach, Reach-IsSound, Steps, here, then, installed, Step, attempts, opens, enables, backs_off,
  waits, read_fails,
}

-- Steps lead to a session that `SendText` finds.
pub data CanConnect (c : Config) (r : Runner) : Type 0 where
  connects :
      (r' : Runner) (id : ℕ)
      → Steps c r r'
      → connected_session r'.bridge r'.bridge ≡ some id
      → CanConnect c r

module _ (c : Config) where
  behind : (r r' : Runner) → Step c r r' → CanConnect c r' → CanConnect c r
  behind r r' s (connects r'' id t h) = connects r'' id (then r r' r'' s t) h

  from_greeting :
      (r : Runner) (id : ℕ) → r.phase ≡ greeting id → r.bridge.session ≡ some id → CanConnect c r
  unfolding enabled set_connected connected_session is_connected
  from_greeting r id p s =
      behind r (enabled id 0 r) (enables id 0 p)
        (connects (enabled id 0 r) id (here (enabled id 0 r)) s)

  from_opening : (r : Runner) → r.phase ≡ opening → CanConnect c r
  unfolding opened install_session add_session
  from_opening r p =
      behind r (opened r) (opens p) (from_greeting (opened r) r.bridge.next refl refl)

  from_top : (r : Runner) → r.phase ≡ top → CanConnect c r
  unfolding attempt
  from_top r p = behind r (attempt 0 r) (attempts 0 p) (from_opening (attempt 0 r) refl)

  from_waiting : (r : Runner) (delay : ℕ) → r.phase ≡ waiting delay → CanConnect c r
  unfolding waited
  from_waiting r delay p = behind r (waited c r) (waits delay p) (from_top (waited c r) refl)

  from_lost : (r : Runner) (error : Option SerialError) → r.phase ≡ lost error → CanConnect c r
  unfolding back_off
  from_lost r error p =
      let next = back_off c (λ n. 0) 0 error r in
      behind r next (backs_off (λ n. 0) 0 error p) (from_waiting next _ refl)

  from_reading : (r : Runner) (id : ℕ) → r.phase ≡ reading id → CanConnect c r
  unfolding read_failed
  from_reading r id p =
      let next = read_failed id eof r in behind r next (read_fails id eof p) (from_lost next _ refl)

  from_phase :
      (r : Runner) (p : Phase)
      → r.phase ≡ p
      → p ≢ idle
      → r.bridge.session ≡ installed p
      → CanConnect c r
  unfolding installed
  from_phase r idle h n s = ground arith
  from_phase r top h n s = from_top r h
  from_phase r opening h n s = from_opening r h
  from_phase r (greeting id) h n s = from_greeting r id h s
  from_phase r (reading id) h n s = from_reading r id h
  from_phase r (lost error) h n s = from_lost r error h
  from_phase r (waiting delay) h n s = from_waiting r delay h

  -- Whatever errors of the port and failures of `SendText` there have been, a `Run` that has not
  -- ended can still come to a session that `SendText` finds.
  pub Reach-CanConnect : (r : Runner) → Reach c r → r.phase ≢ idle → CanConnect c r
  Reach-CanConnect r h n = from_phase r r.phase refl n (ground (arith, Reach-IsSound c r h 0))

-- From a delay in the range of the configuration, the next one is in it too, at least twice as long
-- or the longest.
pub next_delay-bounds :
    (current maximum : ℕ)
    → current ≤ maximum
    → (next_delay current maximum ≤ maximum)
      × ((next_delay current maximum ≡ maximum) ⊎ (next_delay current maximum ≡ current * 2))
unfolding next_delay
next_delay-bounds current maximum h = ground arith

-- The delay that is waited is within a fifth of the delay.
pub jitter_delay-bounds :
    (rand : ℕ → ℕ) (delay : ℕ)
    → rand (delay * 20 / 100 * 2 + 1) < delay * 20 / 100 * 2 + 1
    → (delay ≤ jitter_delay rand delay + delay / 5) × (jitter_delay rand delay ≤ delay + delay / 5)
unfolding jitter_delay
jitter_delay-bounds rand delay h = ground arith
