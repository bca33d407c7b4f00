-- ===== src/Netconsole/Run.antt =====
-- internal/netconsole/bridge.go: `Run` and `runSession`, as the pieces that run between the calls
-- that wait: of the dialer, of `authenticate`, of the connection and of the timer.
pub mod Delays
pub mod Sound
pub mod Reconnect
use gomeshcom_client.Prelude.{
  ℕ, ◌+◌, ◌-◌, ◌%◌, ◌^◌, Bool, true, false, Option, none, some, if◌then◌else◌, leb,
}
use gomeshcom_client.Netconsole.Auth.{ConsoleError}
use gomeshcom_client.Netconsole.Bridge.{
  Config, Bridge, Session, set_connecting, set_connected, set_degraded, set_stopped,
  install_session, remove_session, add_session, close, jitter_delay, next_delay,
}

-- Where `Run` stands: not called, at the head of the loop, at a call of the dialer, at
-- `authenticate`, at the first write, at a read since a time, behind `runSession` with what it
-- returned, or at the timer.
pub data Phase : Type 0 where
  idle top dialing : Phase
  authenticating greeting : ℕ → Phase
  reading : ℕ → ℕ → Phase
  lost : Option ConsoleError → ℕ → Phase
  waiting : ℕ → Phase

-- The bridge and the variables of `Run`.
pub record Runner : Type 0 where
  pub bridge : Bridge
  pub phase : Phase
  pub delay : ℕ
  pub retry_count : ℕ

-- The head of `Run`, up to the loop; `none` is ErrAlreadyRunning.
unfoldable pub start : Config → Runner → Option Runner
start c r =
    if r.bridge.running
    then none
    else some (record {
      bridge = record (r.bridge) { running = true };
      phase = top;
      delay = c.reconnect_initial;
      retry_count = 0;
    })

unfoldable pub attempt : Runner → Runner
attempt r = record r { bridge = set_connecting r.retry_count r.bridge; phase = dialing }

-- `runSession` returns before there is a session.
unfoldable pub dial_failed : ConsoleError → Runner → Runner
dial_failed e r = record r { phase = lost (some e) 0 }

unfoldable pub dialed : Runner → Runner
dialed r = record r { bridge = add_session r.bridge; phase = authenticating r.bridge.next }

-- An error of `authenticate` or of `NewDecoder`; the deferred calls close the session.
unfoldable pub auth_failed : ℕ → ConsoleError → Runner → Runner
auth_failed id e r = record r { bridge = close id r.bridge; phase = lost (some e) 0 }

unfoldable pub authenticated : ℕ → Runner → Runner
authenticated id r = record r { bridge = install_session id r.bridge; phase = greeting id }

-- The deferred calls of `runSession` behind `installSession`, the last first.
unfoldable pub drop_session : ℕ → Bridge → Bridge
drop_session id b = close id (remove_session id b)

-- The write of `enablePacketOutputCommand` fails.
unfoldable pub enable_failed : ℕ → ConsoleError → Runner → Runner
enable_failed id e r = record r { bridge = drop_session id r.bridge; phase = lost (some e) 0 }

unfoldable pub enabled : ℕ → ℕ → Runner → Runner
enabled id now r = record r { bridge = set_connected now r.bridge; phase = reading id now }

-- The failure of the session goes before the error of the read.
unfoldable pub read_error : Session → ConsoleError → ConsoleError
read_error s e = elim (s.failure) [ none ↦ e | some failure ↦ failure ]

-- A read fails.
unfoldable pub read_failed : ℕ → ℕ → ℕ → ConsoleError → Runner → Runner
read_failed id connected_at now e r = record r {
  bridge = drop_session id r.bridge;
  phase = lost (some (read_error (r.bridge.sessions id) e)) (now - connected_at);
}

-- The body of the loop behind `runSession`, up to the timer. `retryCount` is a uint64.
unfoldable pub back_off : Config → (ℕ → ℕ) → ℕ → Option ConsoleError → ℕ → Runner → Runner
back_off c rand now error duration r =
    let retry_count = (r.retry_count + 1) % 2 ^ 64 in
    let delay = if leb c.stable_reset_after duration then c.reconnect_initial else r.delay in
    record {
      bridge = set_degraded now error retry_count r.bridge;
      phase = waiting (jitter_delay rand delay);
      delay = delay;
      retry_count = retry_count;
    }

unfoldable pub waited : Config → Runner → Runner
waited c r = record r { phase = top; delay = next_delay r.delay c.reconnect_max }

-- What the deferred calls of `runSession` do in each phase.
unfoldable pub end_session : Phase → Bridge → Bridge
end_session (authenticating id) b = close id b
end_session (greeting id) b = drop_session id b
end_session (reading id at) b = drop_session id b
end_session _ b = b

-- The context ends: `runSession` returns, and `Run` behind it, up to `running.Store(false)`. From then
-- on, `Run` may be called again.
unfoldable pub stop : Runner → Runner
stop r = record r {
  bridge = record (end_session r.phase r.bridge) { running = false };
  phase = idle;
}

-- The end of the deferred call of `Run`.
unfoldable pub report_stopped : Runner → Runner
report_stopped r = record r { bridge = set_stopped r.bridge }
