-- ===== src/Netconsole/Run/Reconnect.antt =====
-- internal/netconsole/bridge.go: how `Run` returns to a connection.
use gomeshcom_client.Prelude.{ℕ, zero, suc, ◌*◌, ◌^◌, ◌≤◌, ◌<◌, ◌≡◌, ◌≢◌, refl, Option, some, arith}
use gomeshcom_client.Netconsole.Auth.{ConsoleError, eof}
use gomeshcom_client.Netconsole.Bridge.{
  Config, connected_session, is_connected, set_connected, install_session,
}
use gomeshcom_client.Netconsole.Run.{
  Phase, idle, top, dialing, authenticating, greeting, reading, lost, waiting, read_failed, Runner,
  attempt, dial_failed, dialed, authenticated, enabled, back_off, waited,
}
use gomeshcom_client.Netconsole.Run.Sound.{
  Reach, Reach-IsSound, Steps, here, then, installed, Step, attempts, dials, auths, enables,
  backs_off, waits, read_fails,
}
use gomeshcom_client.Netconsole.Run.Delays.{delay_after, delay_after-min, min}

-- One turn of the loop of `Run` in which the dialer fails.
abbrev pub failed_turn : Config → (ℕ → ℕ) → ℕ → ConsoleError → Runner → Runner
failed_turn c rand now e r = waited c (back_off c rand now (some e) 0 (dial_failed e (attempt r)))

-- That many of them.
abbrev pub outage : Config → (ℕ → ℕ) → ℕ → ConsoleError → ℕ → Runner → Runner
outage c rand now e zero r = r
outage c rand now e (suc n) r = failed_turn c rand now e (outage c rand now e n r)

outage-delay :
    (c : Config) (rand : ℕ → ℕ) (now : ℕ) (e : ConsoleError) (n : ℕ) (r : Runner)
    → 0 < c.stable_reset_after
    → r.delay ≡ c.reconnect_initial
    → (outage c rand now e n r).delay ≡ delay_after c.reconnect_max c.reconnect_initial n
unfolding waited back_off dial_failed attempt
outage-delay c rand now e zero r s h = h
outage-delay c rand now e (suc n) r s h = ground (arith, outage-delay c rand now e n r s h)

-- While the node cannot be dialed, the delay doubles with each turn of `Run`, up to the maximum.
pub outage-min :
    (c : Config) (rand : ℕ → ℕ) (now : ℕ) (e : ConsoleError) (n : ℕ) (r : Runner)
    → 0 < c.stable_reset_after
    → c.reconnect_initial ≤ c.reconnect_max
    → r.delay ≡ c.reconnect_initial
    → (outage c rand now e n r).delay ≡ min c.reconnect_max (c.reconnect_initial * 2 ^ n)
outage-min c rand now e n r s m h = ground (
  arith,
  outage-delay c rand now e n r s h,
  delay_after-min c.reconnect_max c.reconnect_initial n m,
)

-- Steps lead to a session that `SendText` finds.
pub data CanConnect (c : Config) (r : Runner) : Type 0 where
  connects :
      (r' : Runner) (id : ℕ)
      → Steps c r r'
      → connected_session r'.bridge r'.bridge ≡ some id
      → CanConnect c r

module _ (c : Config) where
  behind : (r r' : Runner) → Step c r r' → CanConnect c r' → CanConnect c r
  behind r r' s (connects r'' id t h) = connects r'' id (then r r' r'' s t) h

  from_greeting :
      (r : Runner) (id : ℕ) → r.phase ≡ greeting id → r.bridge.session ≡ some id → CanConnect c r
  unfolding enabled set_connected connected_session is_connected
  from_greeting r id p s =
      behind r (enabled id 0 r) (enables id 0 p)
        (connects (enabled id 0 r) id (here (enabled id 0 r)) s)

  from_authenticating : (r : Runner) (id : ℕ) → r.phase ≡ authenticating id → CanConnect c r
  unfolding authenticated install_session
  from_authenticating r id p =
      behind r (authenticated id r) (auths id p) (from_greeting (authenticated id r) id refl refl)

  from_dialing : (r : Runner) → r.phase ≡ dialing → CanConnect c r
  unfolding dialed
  from_dialing r p =
      behind r (dialed r) (dials p) (from_authenticating (dialed r) r.bridge.next refl)

  from_top : (r : Runner) → r.phase ≡ top → CanConnect c r
  unfolding attempt
  from_top r p = behind r (attempt r) (attempts p) (from_dialing (attempt r) refl)

  from_waiting : (r : Runner) (delay : ℕ) → r.phase ≡ waiting delay → CanConnect c r
  unfolding waited
  from_waiting r delay p = behind r (waited c r) (waits delay p) (from_top (waited c r) refl)

  from_lost :
      (r : Runner) (error : Option ConsoleError) (duration : ℕ)
      → r.phase ≡ lost error duration
      → CanConnect c r
  unfolding back_off
  from_lost r error duration p =
      let next = back_off c (λ n. 0) 0 error duration r in
      behind r next (backs_off (λ n. 0) 0 duration error p) (from_waiting next _ refl)

  from_reading : (r : Runner) (id at : ℕ) → r.phase ≡ reading id at → CanConnect c r
  unfolding read_failed
  from_reading r id at p =
      let next = read_failed id at 0 eof r in
      behind r next (read_fails id at 0 eof p) (from_lost next _ _ refl)

  from_phase :
      (r : Runner) (p : Phase)
      → r.phase ≡ p
      → p ≢ idle
      → r.bridge.session ≡ installed p
      → CanConnect c r
  unfolding installed
  from_phase r idle h n s = ground arith
  from_phase r top h n s = from_top r h
  from_phase r dialing h n s = from_dialing r h
  from_phase r (authenticating id) h n s = from_authenticating r id h
  from_phase r (greeting id) h n s = from_greeting r id h s
  from_phase r (reading id at) h n s = from_reading r id at h
  from_phase r (lost error duration) h n s = from_lost r error duration h
  from_phase r (waiting delay) h n s = from_waiting r delay h

  -- Whatever errors of the node and failures of `SendText` there have been, a `Run` that has not
  -- ended can still come to a session that `SendText` finds.
  pub Reach-CanConnect : (r : Runner) → Reach c r → r.phase ≢ idle → CanConnect c r
  Reach-CanConnect r h n = from_phase r r.phase refl n (ground (arith, Reach-IsSound c r h 0))
