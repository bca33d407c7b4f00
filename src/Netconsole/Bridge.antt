-- ===== src/Netconsole/Bridge.antt =====
-- internal/netconsole/bridge.go: the bridge, its sessions and sending. Durations are numbers of
-- nanoseconds; one that is not positive is 0.
pub mod Received
pub mod Sent
use gomeshcom_client.Prelude.{
  ◌⊎◌, inl, inr, map, ℕ, suc, ◌+◌, ◌-◌, ◌*◌, ◌/◌, ◌%◌, ◌^◌, Bool, true, false, ◌||◌, List, [], ◌∷◌,
  ◌++◌, Option, none, some, if◌then◌else◌, ltb, leb, ◌==◌, is_empty,
}
use gomeshcom_client.Text.{Text, codes}
use gomeshcom_client.Transport.{
  State, Status, disconnected, connecting, connected, degraded, stopped,
}
use gomeshcom_client.Console.Encoder.{TextCommand, EncodeError, Result, ok, err, encode}
use gomeshcom_client.Console.Decoder.{Decoder, feed}
use gomeshcom_client.PacketIngest.{Parsed, Dependencies, Source, Call, process}
use gomeshcom_client.Netconsole.Auth.{ConsoleError, Writer, write_all}
use gomeshcom_client.Netconsole.Auth

abbrev pub enable_packet_output_command : Text
enable_packet_output_command = codes "--setinfo on\r\n"

pub record Config : Type 0 where
  pub address : Text
  pub password : Text
  pub connect_timeout : ℕ
  pub auth_timeout : ℕ
  pub write_timeout : ℕ
  pub reconnect_initial : ℕ
  pub reconnect_max : ℕ
  pub stable_reset_after : ℕ
  pub max_auth_line_bytes : ℕ
  pub max_record_bytes : ℕ

pub data ConfigError : Type 0 where
  address_required bad_timeout bad_delays bad_reset bad_limit processor_required : ConfigError

unfoldable pub validate_bridge_config : Config → Option ConfigError
validate_bridge_config c =
    if is_empty c.address
    then some address_required
    else if c.connect_timeout == 0 || (c.auth_timeout == 0 || c.write_timeout == 0)
    then some bad_timeout
    else if c.reconnect_initial == 0
        || (c.reconnect_max == 0 || ltb c.reconnect_max c.reconnect_initial)
    then some bad_delays
    else if c.stable_reset_after == 0
    then some bad_reset
    else if c.max_auth_line_bytes == 0 || c.max_record_bytes == 0
    then some bad_limit
    else none

-- `activeSession`, of which a session that `conn.Close` has been called on is closed.
pub record Session : Type 0 where
  pub failure : Option ConsoleError
  pub is_open : Bool

-- The sessions there have been stand in `sessions` by their numbers, which stand for pointers, below
-- `next`.
pub record Bridge : Type 0 where
  pub status : Status ConsoleError
  pub session : Option ℕ
  pub running : Bool
  pub sessions : ℕ → Session
  pub next : ℕ

-- `newActiveSession`
abbrev pub new_session : Session
new_session = record { failure = none; is_open = true }

-- `NewBridge`, given that there is a processor.
unfoldable pub new_bridge : Bool → Config → Bridge ⊎ ConfigError
new_bridge has_processor c = elim (validate_bridge_config c) [
  | some e ↦ inr e
  | none ↦
      if has_processor
      then inl (record {
        status = record {
          mode = codes "netconsole";
          state = disconnected;
          endpoint = c.address;
          last_error = none;
          last_error_at = none;
          connected_at = none;
          retry_count = 0;
        };
        session = none;
        running = false;
        sessions = λ id. new_session;
        next = 0;
      })
      else inr processor_required
]

abbrev on_status : (Status ConsoleError → Status ConsoleError) → Bridge → Bridge
on_status f b = record b { status = f b.status }

unfoldable pub set_connecting : ℕ → Bridge → Bridge
set_connecting retry_count =
    on_status (λ s. record s { state = connecting; retry_count = retry_count; connected_at = none })

unfoldable pub set_connected : ℕ → Bridge → Bridge
set_connected now = on_status (λ s. record s {
  state = connected;
  last_error = none;
  last_error_at = none;
  connected_at = some now;
})

-- The error of the status, if there is a new one.
unfoldable pub note_error : ℕ → Option ConsoleError → Status ConsoleError → Status ConsoleError
note_error now none s = s
note_error now (some e) s = record s { last_error = some e; last_error_at = some now }

unfoldable pub set_degraded : ℕ → Option ConsoleError → ℕ → Bridge → Bridge
set_degraded now error retry_count = on_status (λ s.
    note_error now error
      (record s { state = degraded; retry_count = retry_count; connected_at = none }))

unfoldable pub set_stopped : Bridge → Bridge
set_stopped = on_status (λ s. record s { state = stopped; connected_at = none })

unfoldable pub is_connected : Bridge → Bool
is_connected b = elim (b.status.state) [ connected ↦ true | _ ↦ false ]

-- `connectedSession`: the status is read at one time, and the session at a later one.
unfoldable pub connected_session : Bridge → Bridge → Option ℕ
connected_session at_status at_session = if is_connected at_status then at_session.session else none

unfoldable pub install_session : ℕ → Bridge → Bridge
install_session id b = record b { session = some id }

unfoldable pub is_session : ℕ → Option ℕ → Bool
is_session id none = false
is_session id (some i) = i == id

unfoldable pub remove_session : ℕ → Bridge → Bridge
remove_session id b = if is_session id b.session then record b { session = none } else b

unfoldable pub set_session : ℕ → Session → Bridge → Bridge
set_session id s b = record b { sessions = λ i. if i == id then s else b.sessions i }

-- `newActiveSession` on the connection that was dialed.
unfoldable pub add_session : Bridge → Bridge
add_session b = record (set_session b.next new_session b) { next = suc b.next }

unfoldable pub close : ℕ → Bridge → Bridge
close id b = set_session id (record (b.sessions id) { is_open = false }) b

unfoldable pub note_failure : ConsoleError → Option ConsoleError → Option ConsoleError
note_failure e none = some e
note_failure e (some first) = some first

-- `session.fail`
unfoldable pub fail : ℕ → ConsoleError → Bridge → Bridge
fail id e b =
    set_session id (record { failure = note_failure e (b.sessions id).failure; is_open = false }) b

-- `session.write`: what is sent, and its error. `done` is the error of the context, and `deadline`
-- that of `SetWriteDeadline`.
unfoldable pub write :
    Option ConsoleError → Option ConsoleError → Writer → Session → Text → Text × Option ConsoleError
write (some e) deadline w s raw = ([], some e)
write none deadline w s raw = elim (s.failure) [
  | some e ↦ ([], some e)
  | none ↦ elim deadline [ some e ↦ ([], some e) | none ↦ write_all w raw ]
]

-- What `SendText` returns.
pub data Sending : Type 0 where
  refused : EncodeError → Sending
  dry_run unavailable sent : Sending
  broken : ConsoleError → Sending

-- The end of `SendText`, on a failed write.
unfoldable pub report : ℕ → ℕ → ConsoleError → Bridge → Bridge
report now id e b =
    let failed = fail id e b in set_degraded now (some e) failed.status.retry_count failed

-- `SendText` where no other method runs in between: the bytes written, the result and the bridge.
-- `write_on` is the write on a session.
unfoldable pub send_text :
    (ℕ → Session → Text → Text × Option ConsoleError)
    → Option Text
    → Bool
    → ℕ
    → TextCommand
    → Bridge
    → Text × Sending × Bridge
send_text write_on identity disable_tx now command b = elim (encode identity command) [
  | err e ↦ ([], refused e, b)
  | ok raw ↦ if disable_tx then ([], dry_run, b) else elim (connected_session b b) [
    | none ↦ ([], unavailable, b)
    | some id ↦
        let (written, error) = write_on id (b.sessions id) raw in
        elim error [ some e ↦ (written, broken e, report now id e b) | none ↦ (written, sent, b) ]
  ]
]

-- `forward` is the call of the forwarder, which may be nil.
module _ {F V U C : Type 0} (parse : Text → Parsed F V U) (d : Dependencies) (address : Text)
    (forward : Option (Text → C)) where
  -- One turn of the loop of `processBytes` over the payloads.
  unfoldable pub process_payload : Text → List (C ⊎ Call F V U)
  process_payload raw =
      elim forward [ none ↦ [] | some f ↦ inl (f raw) ∷ [] ]
      ++ map inr
          (process parse d (record { transport = codes "netconsole"; endpoint = address }) raw)

  unfoldable pub process_payloads : List Text → List (C ⊎ Call F V U)
  process_payloads [] = []
  process_payloads (raw ∷ more) = process_payload raw ++ process_payloads more

  unfoldable pub process_bytes : Text → Decoder → Decoder × List (C ⊎ Call F V U)
  process_bytes raw decoder =
      let (next, result) = feed raw decoder in (next, process_payloads result.payloads)

-- `rand` is `rand.Int64N`.
unfoldable pub jitter_delay : (ℕ → ℕ) → ℕ → ℕ
jitter_delay rand delay = if leb delay 1 then delay else delay / 2 + rand (delay / 2 + 1)

unfoldable pub next_delay : ℕ → ℕ → ℕ
next_delay current maximum =
    if leb maximum current || ltb (maximum / 2) current then maximum else current * 2
