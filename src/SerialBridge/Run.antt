-- ===== src/SerialBridge/Run.antt =====
-- internal/serialbridge/bridge.go: `Run` and `runSession`, as the pieces that run between the calls
-- that wait: of the opener, of the port and of the timer.
pub mod Sound
pub mod Reconnect
use gomeshcom_client.Prelude.{
  ℕ, ◌+◌, ◌-◌, ◌%◌, ◌^◌, Bool, true, false, Option, none, some, if◌then◌else◌, leb,
}
use gomeshcom_client.SerialBridge.Link.{SerialError}
use gomeshcom_client.SerialBridge.Link.{
  Config, Bridge, Session, set_connecting, set_connected, set_degraded, set_stopped,
  install_session, remove_session, add_session, close, jitter_delay, next_delay,
}

-- Where `Run` stands: not called, at the head of the loop, at a call of the opener, at
-- the first write, at a read, behind `runSession` with its error, or at the timer.
pub data Phase : Type 0 where
  idle top opening : Phase
  greeting reading : ℕ → Phase
  lost : Option SerialError → Phase
  waiting : ℕ → Phase

-- The bridge and the variables of `Run`.
pub record Runner : Type 0 where
  pub bridge : Bridge
  pub phase : Phase
  pub delay : ℕ
  pub started_at : ℕ
  pub retry_count : ℕ

-- The head of `Run`, up to the loop; `none` is ErrAlreadyRunning.
unfoldable pub start : Config → Runner → Option Runner
start c r =
    if r.bridge.running
    then none
    else some (record {
      bridge = record (r.bridge) { running = true };
      phase = top;
      delay = c.reconnect_initial;
      started_at = r.started_at;
      retry_count = 0;
    })

unfoldable pub attempt : ℕ → Runner → Runner
attempt now r = record r {
  bridge = set_connecting r.retry_count r.bridge;
  phase = opening;
  started_at = now;
}

-- `runSession` returns before there is a session; a port that is open has been closed.
unfoldable pub open_failed : SerialError → Runner → Runner
open_failed e r = record r { phase = lost (some e) }

unfoldable pub opened : Runner → Runner
opened r = record r {
  bridge = install_session r.bridge.next (add_session r.bridge);
  phase = greeting r.bridge.next;
}

-- The deferred calls of `runSession` behind the creation of the session, the last first.
unfoldable pub drop_session : ℕ → Bridge → Bridge
drop_session id b = remove_session id (close id b)

-- The write of `enablePacketOutputCommand` fails.
unfoldable pub enable_failed : ℕ → SerialError → Runner → Runner
enable_failed id e r = record r { bridge = drop_session id r.bridge; phase = lost (some e) }

unfoldable pub enabled : ℕ → ℕ → Runner → Runner
enabled id now r = record r { bridge = set_connected now r.bridge; phase = reading id }

-- The failure of the session goes before the error of the read.
unfoldable pub read_error : Session → SerialError → SerialError
read_error s e = elim (s.failure) [ none ↦ e | some failure ↦ failure ]

-- A read fails.
unfoldable pub read_failed : ℕ → SerialError → Runner → Runner
read_failed id e r = record r {
  bridge = drop_session id r.bridge;
  phase = lost (some (read_error (r.bridge.sessions id) e));
}

-- The body of the loop behind `runSession`, up to the timer. `retryCount` is a uint64.
unfoldable pub back_off : Config → (ℕ → ℕ) → ℕ → Option SerialError → Runner → Runner
back_off c rand now error r =
    let retry_count = (r.retry_count + 1) % 2 ^ 64 in
    let delay =
      if leb c.stable_reset_after (now - r.started_at) then c.reconnect_initial else r.delay in
    record {
      bridge = set_degraded now error retry_count r.bridge;
      phase = waiting (jitter_delay rand delay);
      delay = delay;
      started_at = r.started_at;
      retry_count = retry_count;
    }

unfoldable pub waited : Config → Runner → Runner
waited c r = record r { phase = top; delay = next_delay r.delay c.reconnect_max }

-- What the deferred calls of `runSession` do in each phase.
unfoldable pub end_session : Phase → Bridge → Bridge
end_session (greeting id) b = drop_session id b
end_session (reading id) b = drop_session id b
end_session _ b = b

-- The context ends: `runSession` returns, and `Run` behind it, up to `running.Store(false)`. From then
-- on, `Run` may be called again.
unfoldable pub stop : Runner → Runner
stop r = record r {
  bridge = record (end_session r.phase r.bridge) { running = false };
  phase = idle;
}

-- The end of the deferred call of `Run`.
unfoldable pub report_stopped : Runner → Runner
report_stopped r = record r { bridge = set_stopped r.bridge }
