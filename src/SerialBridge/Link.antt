-- ===== src/SerialBridge/Link.antt =====
-- internal/serialbridge/bridge.go: the bridge, its sessions and sending. Durations are numbers of
-- nanoseconds; one that is not positive is 0.
pub mod Sent
use gomeshcom_client.Prelude.{
  ◌⊎◌, inl, inr, map, ℕ, zero, suc, ◌+◌, ◌-◌, ◌*◌, ◌/◌, Bool, true, false, ◌||◌, List, [], ◌∷◌,
  ◌++◌, Option, none, some, if◌then◌else◌, ltb, leb, ◌==◌, take, drop, length,
}
use gomeshcom_client.Text.{Text, codes}
use gomeshcom_client.Transport.{
  State, Status, disconnected, connecting, connected, degraded, stopped,
}
use gomeshcom_client.Console.Encoder.{TextCommand, EncodeError, Result, ok, err, encode}
use gomeshcom_client.Console.Decoder.{Decoder, feed}
use gomeshcom_client.PacketIngest.{Parsed, Dependencies, Call, process}
use gomeshcom_client.SerialBridge.Port.{PortConfig, PortError}

abbrev pub enable_packet_output_command : Text
enable_packet_output_command = codes "--setinfo on\r\n"

-- The errors of the package. `failed` is an error of the port, by its number; `cancelled` is that of
-- a context; `out_of_fuel` stands for a write loop that has not ended.
pub data SerialError : Type 0 where
  eof short_write out_of_fuel err_disconnected cancelled invalid_record_limit : SerialError
  port_failed : PortError → SerialError
  failed : ℕ → SerialError

pub record Config : Type 0 where
  pub port : PortConfig
  pub reconnect_initial : ℕ
  pub reconnect_max : ℕ
  pub stable_reset_after : ℕ
  pub max_record_bytes : ℕ

pub data ConfigError : Type 0 where
  processor_required bad_delays bad_reset bad_limit : ConfigError

-- `activeSession`, of which a session whose port was closed is closed.
pub record Session : Type 0 where
  pub failure : Option SerialError
  pub is_open : Bool

-- The sessions there have been stand in `sessions` by their numbers, which stand for pointers, below
-- `next`.
pub record Bridge : Type 0 where
  pub status : Status SerialError
  pub session : Option ℕ
  pub running : Bool
  pub sessions : ℕ → Session
  pub next : ℕ

-- `newActiveSession`
abbrev pub new_session : Session
new_session = record { failure = none; is_open = true }

-- `NewBridge`; the first argument tells if there is a processor.
unfoldable pub new_bridge : Bool → Config → Bridge ⊎ ConfigError
new_bridge has_processor c =
    if has_processor
    then if c.reconnect_initial == 0
        || (c.reconnect_max == 0 || ltb c.reconnect_max c.reconnect_initial)
      then inr bad_delays
      else if c.stable_reset_after == 0
      then inr bad_reset
      else if c.max_record_bytes == 0
      then inr bad_limit
      else inl (record {
        status = record {
          mode = codes "serial";
          state = disconnected;
          endpoint = c.port.device;
          last_error = none;
          last_error_at = none;
          connected_at = none;
          retry_count = 0;
        };
        session = none;
        running = false;
        sessions = λ id. new_session;
        next = 0;
      })
    else inr processor_required

abbrev on_status : (Status SerialError → Status SerialError) → Bridge → Bridge
on_status f b = record b { status = f b.status }

unfoldable pub set_connecting : ℕ → Bridge → Bridge
set_connecting retry_count =
    on_status (λ s. record s { state = connecting; retry_count = retry_count; connected_at = none })

unfoldable pub set_connected : ℕ → Bridge → Bridge
set_connected now = on_status (λ s. record s {
  state = connected;
  last_error = none;
  last_error_at = none;
  connected_at = some now;
})

-- `none` is a nil error.
unfoldable pub error_text : Option SerialError → SerialError
error_text none = err_disconnected
error_text (some e) = e

unfoldable pub set_degraded : ℕ → Option SerialError → ℕ → Bridge → Bridge
set_degraded now error retry_count = on_status (λ s. record s {
  state = degraded;
  connected_at = none;
  retry_count = retry_count;
  last_error_at = some now;
  last_error = some (error_text error);
})

unfoldable pub set_stopped : Bridge → Bridge
set_stopped = on_status (λ s. record s { state = stopped; connected_at = none })

unfoldable pub is_connected : Bridge → Bool
is_connected b = elim (b.status.state) [ connected ↦ true | _ ↦ false ]

-- `connectedSession`: the status is read at one time, and the session at a later one.
unfoldable pub connected_session : Bridge → Bridge → Option ℕ
connected_session at_status at_session = if is_connected at_status then at_session.session else none

unfoldable pub install_session : ℕ → Bridge → Bridge
install_session id b = record b { session = some id }

unfoldable pub is_session : ℕ → Option ℕ → Bool
is_session id none = false
is_session id (some i) = i == id

unfoldable pub remove_session : ℕ → Bridge → Bridge
remove_session id b = if is_session id b.session then record b { session = none } else b

unfoldable pub set_session : ℕ → Session → Bridge → Bridge
set_session id s b = record b { sessions = λ i. if i == id then s else b.sessions i }

-- `newActiveSession` on the port that was opened.
unfoldable pub add_session : Bridge → Bridge
add_session b = record (set_session b.next new_session b) { next = suc b.next }

-- `closePort`
unfoldable pub close : ℕ → Bridge → Bridge
close id b = set_session id (record (b.sessions id) { is_open = false }) b

unfoldable pub note_failure : SerialError → Option SerialError → Option SerialError
note_failure e none = some e
note_failure e (some first) = some first

-- `session.fail`
unfoldable pub fail : ℕ → SerialError → Bridge → Bridge
fail id e b =
    set_session id (record { failure = note_failure e (b.sessions id).failure; is_open = false }) b

-- The port: for each call of `Write`, by its number, and its bytes, the count and the error it
-- returns.
abbrev pub Writer : Type 0
Writer = ℕ → Text → ℕ × Option SerialError

-- The loop of `session.write` with the bytes sent so far. `done` is what the error of the context is
-- before a call.
unfoldable pub write_loop :
    ℕ → (ℕ → Option SerialError) → Writer → ℕ → Text → Text → Text × Option SerialError
write_loop fuel done w call so_far [] = (so_far, none)
write_loop zero done w call so_far (c ∷ raw) = (so_far, some out_of_fuel)
write_loop (suc fuel) done w call so_far (c ∷ raw) =
    let (written, error) = w call (c ∷ raw) in
    let so_far' = so_far ++ take written (c ∷ raw) in
    let rest = write_loop fuel done w (suc call) so_far' (drop written (c ∷ raw)) in
    elim (done call) [
      | some e ↦ (so_far, some e)
      | none ↦ elim error [
        | some e ↦ (so_far', some e)
        | none ↦
            if written == 0 || ltb (length (c ∷ raw)) written
            then (so_far', some short_write)
            else rest
      ]
    ]

-- `session.write`
unfoldable pub write : (ℕ → Option SerialError) → Writer → Text → Text × Option SerialError
write done w raw = write_loop (length raw) done w 0 [] raw

-- What `SendText` returns.
pub data Sending : Type 0 where
  refused : EncodeError → Sending
  dry_run unavailable sent : Sending
  broken : SerialError → Sending

-- The end of `SendText`, on a failed write.
unfoldable pub report : ℕ → ℕ → SerialError → Bridge → Bridge
report now id e b =
    let failed = fail id e b in set_degraded now (some e) failed.status.retry_count failed

-- `SendText` where no other method runs in between: the bytes written, the result and the bridge.
-- `write_on` is the write on a session.
unfoldable pub send_text :
    (ℕ → Text → Text × Option SerialError)
    → Option Text
    → Bool
    → ℕ
    → TextCommand
    → Bridge
    → Text × Sending × Bridge
send_text write_on identity disable_tx now command b = elim (encode identity command) [
  | err e ↦ ([], refused e, b)
  | ok raw ↦ if disable_tx then ([], dry_run, b) else elim (connected_session b b) [
    | none ↦ ([], unavailable, b)
    | some id ↦
        let (written, error) = write_on id raw in
        elim error [ some e ↦ (written, broken e, report now id e b) | none ↦ (written, sent, b) ]
  ]
]

-- `forward` is the call of the forwarder, which may be nil.
module _ {F V U C : Type 0} (parse : Text → Parsed F V U) (d : Dependencies) (device : Text)
    (forward : Option (Text → C)) where
  -- One turn of the loop of `processSerialBytes` over the payloads.
  unfoldable pub process_payload : Text → List (C ⊎ Call F V U)
  process_payload raw =
      elim forward [ none ↦ [] | some f ↦ inl (f raw) ∷ [] ]
      ++ map inr (process parse d (record { transport = codes "serial"; endpoint = device }) raw)

  unfoldable pub process_payloads : List Text → List (C ⊎ Call F V U)
  process_payloads [] = []
  process_payloads (raw ∷ more) = process_payload raw ++ process_payloads more

  unfoldable pub process_serial_bytes : Text → Decoder → Decoder × List (C ⊎ Call F V U)
  process_serial_bytes raw decoder =
      let (next, result) = feed raw decoder in (next, process_payloads result.payloads)

-- `rand` is `rand.Int64N`.
unfoldable pub jitter_delay : (ℕ → ℕ) → ℕ → ℕ
jitter_delay rand delay =
    let window = delay * 20 / 100 in
    if window == 0 then delay else delay + rand (window * 2 + 1) - window

unfoldable pub next_delay : ℕ → ℕ → ℕ
next_delay current maximum = if leb (maximum / 2) current then maximum else current * 2
