-- ===== src/SerialBridge/Run/Sound.antt =====
-- internal/serialbridge/bridge.go: `Run` against calls of `SendText`, in any interleaving.
use gomeshcom_client.Prelude.{ℕ, ◌<◌, ◌≡◌, ◌≢◌, Bool, true, false, Option, none, some, arith, ◌==◌}
use gomeshcom_client.SerialBridge.Link.{SerialError}
use gomeshcom_client.SerialBridge.Link.{
  Config, Bridge, set_connecting, set_connected, set_degraded, set_stopped, error_text,
  install_session, remove_session, is_session, set_session, add_session, close, fail,
  connected_session, is_connected,
}
use gomeshcom_client.SerialBridge.Run.{
  Phase, idle, top, opening, greeting, reading, lost, waiting, Runner, start, attempt, open_failed,
  opened, drop_session, enable_failed, enabled, read_failed, back_off, waited, end_session, stop,
  report_stopped,
}

-- A step of `Run`, or of a `SendText` whose write on some session failed: it closes the session at
-- one time and reports the failure at a later one, with a retry count that it has read before. A `Run`
-- that has stopped says so in the status at a later time too, when the next `Run` may have begun.
pub data Step (c : Config) (r : Runner) : Runner → Type 0 where
  starts : (r' : Runner) → r.phase ≡ idle → start c r ≡ some r' → Step c r r'
  attempts : (now : ℕ) → r.phase ≡ top → Step c r (attempt now r)
  open_fails : (e : SerialError) → r.phase ≡ opening → Step c r (open_failed e r)
  opens : r.phase ≡ opening → Step c r (opened r)
  enable_fails :
      (id : ℕ) (e : SerialError) → r.phase ≡ greeting id → Step c r (enable_failed id e r)
  enables : (id now : ℕ) → r.phase ≡ greeting id → Step c r (enabled id now r)
  read_fails : (id : ℕ) (e : SerialError) → r.phase ≡ reading id → Step c r (read_failed id e r)
  backs_off :
      (rand : ℕ → ℕ) (now : ℕ) (error : Option SerialError)
      → r.phase ≡ lost error
      → Step c r (back_off c rand now error r)
  waits : (delay : ℕ) → r.phase ≡ waiting delay → Step c r (waited c r)
  stops : r.phase ≢ idle → Step c r (stop r)
  reports_stopped : Step c r (report_stopped r)
  send_fails :
      (id : ℕ) (e : SerialError)
      → id < r.bridge.next
      → Step c r (record r { bridge = fail id e r.bridge })
  send_reports :
      (now retry_count : ℕ) (e : SerialError)
      → Step c r (record r { bridge = set_degraded now (some e) retry_count r.bridge })

-- From a new bridge, before `Run`.
pub data Reach (c : Config) : Runner → Type 0 where
  new :
      (r : Runner)
      → r.phase ≡ idle
      → r.bridge.session ≡ none
      → r.bridge.running ≡ false
      → r.bridge.next ≡ 0
      → is_connected r.bridge ≡ false
      → Reach c r
  step : (r r' : Runner) → Reach c r → Step c r r' → Reach c r'

pub data Steps (c : Config) : Runner → Runner → Type 0 where
  here : (r : Runner) → Steps c r r
  then : (r r' r'' : Runner) → Step c r r' → Steps c r' r'' → Steps c r r''

-- The session that a phase works on, and the one of these that is installed.
unfoldable pub session_of : Phase → Option ℕ
session_of (greeting id) = some id
session_of (reading id) = some id
session_of _ = none

unfoldable pub installed : Phase → Option ℕ
installed (greeting id) = some id
installed (reading id) = some id
installed _ = none

unfoldable pub may_be_connected : Phase → Bool
may_be_connected (reading id) = true
may_be_connected (lost e) = true
may_be_connected idle = true
may_be_connected top = true
may_be_connected _ = false

unfoldable pub is_reading : ℕ → Phase → Bool
is_reading id (reading i) = i == id
is_reading id _ = false

-- What holds of a state, and of the session of a number in it.
abbrev pub IsSoundAt : Runner → ℕ → Type 0
IsSoundAt r id =
    (r.bridge.session ≡ installed r.phase)
    × (is_connected r.bridge ≡ true → may_be_connected r.phase ≡ true)
    × (session_of r.phase ≡ some id → id < r.bridge.next)
    × (id < r.bridge.next → (r.bridge.sessions id).is_open ≡ true → session_of r.phase ≡ some id)

abbrev pub IsSound : Runner → Type 0
IsSound r = (id : ℕ) → IsSoundAt r id

end_session-closes :
    (p : Phase) (b : Bridge) (i : ℕ)
    → b.session ≡ installed p
    → (i < b.next → (b.sessions i).is_open ≡ true → session_of p ≡ some i)
    → ((end_session p b).session ≡ none)
      × ((end_session p b).next ≡ b.next)
      × (i < b.next → ((end_session p b).sessions i).is_open ≡ false)
unfolding end_session drop_session remove_session is_session set_session close session_of installed
end_session-closes idle b i h o = ground arith
end_session-closes top b i h o = ground arith
end_session-closes opening b i h o = ground arith
end_session-closes (greeting id) b i h o = ground arith
end_session-closes (reading id) b i h o = ground arith
end_session-closes (lost e) b i h o = ground arith
end_session-closes (waiting delay) b i h o = ground arith

Step-IsSound : (c : Config) (r r' : Runner) → Step c r r' → IsSound r → IsSound r'
unfolding start attempt open_failed opened drop_session enable_failed enabled read_failed back_off
    waited end_session stop report_stopped set_connecting set_connected set_degraded set_stopped
    error_text install_session remove_session is_session set_session add_session close fail
    is_connected session_of installed may_be_connected
Step-IsSound c r _ (starts t p e) s i = ground (arith, s i)
Step-IsSound c r _ (attempts now p) s i = ground (arith, s i)
Step-IsSound c r _ (open_fails e p) s i = ground (arith, s i)
Step-IsSound c r _ (opens p) s i = ground (arith, s i, s r.bridge.next)
Step-IsSound c r _ (enable_fails id e p) s i = ground (arith, s i, s id)
Step-IsSound c r _ (enables id now p) s i = ground (arith, s i, s id)
Step-IsSound c r _ (read_fails id e p) s i = ground (arith, s i, s id)
Step-IsSound c r _ (backs_off rand now error p) s i = ground (arith, s i)
Step-IsSound c r _ (waits delay p) s i = ground (arith, s i)
Step-IsSound c r _ (stops p) s i = ground (arith, s i, end_session-closes r.phase r.bridge i)
Step-IsSound c r _ reports_stopped s i = ground (arith, s i)
Step-IsSound c r _ (send_fails id e k) s i = ground (arith, s i, s id)
Step-IsSound c r _ (send_reports now retry_count e) s i = ground (arith, s i)

pub Reach-IsSound : (c : Config) (r : Runner) → Reach c r → IsSound r
unfolding session_of installed may_be_connected
Reach-IsSound c r (new t p b a n k) i = ground arith
Reach-IsSound c r (step t t' h k) i = Step-IsSound c t t' k (Reach-IsSound c t h) i

-- In every state that `Run` and calls of `SendText` reach, in any interleaving, a session whose
-- connection is open is the one that `Run` is working on: no connection is left open.
pub Reach-is_open :
    (c : Config) (r : Runner) (id : ℕ)
    → Reach c r
    → id < r.bridge.next
    → (r.bridge.sessions id).is_open ≡ true
    → session_of r.phase ≡ some id
Reach-is_open c r id h k o = ground (arith, Reach-IsSound c r h id)

Steps-Reach : (c : Config) (r r' : Runner) → Steps c r r' → Reach c r → Reach c r'
Steps-Reach c r _ (here _) h = h
Steps-Reach c r r'' (then _ r' _ s t) h = Steps-Reach c r' r'' t (step r r' h s)

-- A session that `SendText` finds, with the status of one state and the session of a later one, and
-- whatever steps of `Run` and of other calls lie between the two: in the later state, `Run` is working
-- on that session, at the first write or at a read; if the status still says connected, `Run` is reading it, behind the first write.
pub Reach-connected_session :
    (c : Config) (r r' : Runner) (id : ℕ)
    → Reach c r
    → Steps c r r'
    → connected_session r.bridge r'.bridge ≡ some id
    → (installed r'.phase ≡ some id)
      × (is_connected r'.bridge ≡ true → is_reading id r'.phase ≡ true)
unfolding connected_session is_connected installed may_be_connected is_reading
Reach-connected_session c r r' id h t k =
    let sound = Reach-IsSound c r' (Steps-Reach c r r' t h) id in
    (ground (arith, sound), λ d. ground (arith, sound))
