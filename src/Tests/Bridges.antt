-- ===== src/Tests/Bridges.antt =====
-- The bridges of internal/netconsole and internal/serialbridge in a run that loses its connection.
use gomeshcom_client.Prelude.{◌≡◌, inl, refl, true, false, [], ◌∷◌, none, some, arith, length}
use gomeshcom_client.Text.{
  Text, codes, text_eq, upper, to_upper, trim_left, trim_right, trim_space, cut_prefix, index,
}
use gomeshcom_client.Callsign.{normalize}
use gomeshcom_client.Meshcom.Utf8.{
  follow, wide_rune, valid_from, valid_string, rune_width, rune_count, rune_count_from,
}
use gomeshcom_client.Meshcom.Outgoing.{validate_outgoing_text}
use gomeshcom_client.Console.Encoder.{
  TextCommand, ok, is_decimal, is_local_callsign, encode_channel, encode_destination, frame,
  encode_valid, encode,
}
use gomeshcom_client.Console.Encoder.Safety.{IsCommand}
use gomeshcom_client.Console.Decoder.{Decoder}
use gomeshcom_client.PacketIngest.{Parsed, failed, Dependencies}
use gomeshcom_client.Transport.{disconnected}
use gomeshcom_client.Netconsole.Auth.{Writer, write_loop, write_all}
use gomeshcom_client.Netconsole.Bridge.{
  Config, Bridge, new_session, new_bridge, validate_bridge_config, Sending, send_text,
  connected_session, is_connected, set_connecting, set_connected, install_session, add_session,
  set_session, write, process_bytes,
}
use gomeshcom_client.Netconsole.Bridge.Sent.{sending, send_text-IsCommand}
use gomeshcom_client.Netconsole.Bridge.Received.{process_chunks, concat, process_chunks-concat}
use gomeshcom_client.Netconsole.Run.{
  Runner, idle, top, start, attempt, dialed, authenticated, enabled,
}
use gomeshcom_client.Netconsole.Run.Sound.{
  Reach, new, step, starts, attempts, dials, auths, enables, is_reading, installed, here,
  Reach-connected_session,
}
use gomeshcom_client.Netconsole.Run.Reconnect.{CanConnect, Reach-CanConnect}

consoles : Unit {0}
unfolding new_bridge validate_bridge_config set_connecting set_connected install_session add_session
    set_session start attempt dialed authenticated enabled connected_session is_connected
consoles = tt

sending_hello : Unit {0}
unfolding consoles send_text write write_loop write_all upper to_upper index text_eq cut_prefix
    trim_left trim_right trim_space normalize follow wide_rune rune_width valid_from valid_string
    rune_count_from rune_count validate_outgoing_text is_decimal is_local_callsign encode_channel
    encode_destination frame encode_valid encode
sending_hello = tt

abbrev config : Config
config = record {
  address = codes "node:2323";
  password = codes "pw";
  connect_timeout = 5;
  auth_timeout = 5;
  write_timeout = 5;
  reconnect_initial = 1000;
  reconnect_max = 30000;
  stable_reset_after = 60000;
  max_auth_line_bytes = 128;
  max_record_bytes = 4096;
}

abbrev fresh : Bridge
fresh = record {
  status = record {
    mode = codes "netconsole";
    state = disconnected;
    endpoint = codes "node:2323";
    last_error = none;
    last_error_at = none;
    connected_at = none;
    retry_count = 0;
  };
  session = none;
  running = false;
  sessions = λ id. new_session;
  next = 0;
}

is_fresh : new_bridge true config ≡ inl fresh
unfolding consoles
is_fresh = refl

abbrev before : Runner
before = record { bridge = fresh; phase = idle; delay = 0; retry_count = 0 }

abbrev started : Runner
started = record {
  bridge = record fresh { running = true };
  phase = top;
  delay = 1000;
  retry_count = 0;
}

abbrev connected_once : Runner
connected_once = enabled 0 100 (authenticated 0 (dialed (attempt started)))

connected_once-Reach : Reach config connected_once
unfolding consoles
connected_once-Reach =
    step _ _
      (step _ _
        (step _ _
          (step _ _ (step _ _ (new before refl refl refl refl refl) (starts started refl refl))
            (attempts refl))
          (dials refl))
        (auths 0 refl))
      (enables 0 100 refl)

Reach-connected_session_example :
    (installed connected_once.phase ≡ some 0)
    × (is_connected connected_once.bridge ≡ true → is_reading 0 connected_once.phase ≡ true)
unfolding consoles
Reach-connected_session_example =
    Reach-connected_session config connected_once connected_once 0 connected_once-Reach
      (here connected_once) refl

Reach-CanConnect_example : CanConnect config connected_once
unfolding consoles
Reach-CanConnect_example = Reach-CanConnect config connected_once connected_once-Reach (λ e. cc)

abbrev takes_all : Writer
takes_all call raw = (length raw, none)

abbrev hello : TextCommand
hello = record { destination = codes "*"; message = codes "hello"; max_message_runes = 150 }

abbrev sends : Text × Sending × Bridge
sends = sending none none takes_all none false 200 hello connected_once.bridge

send_text-IsCommand_example :
    (encode none hello ≡ ok sends.0) × IsCommand sends.0 × (sends.2 ≡ connected_once.bridge)
unfolding sending_hello
send_text-IsCommand_example =
    send_text-IsCommand none none takes_all none false 200 hello connected_once.bridge
      (λ call raw. omega arith, λ call raw. λ e. cc) refl

abbrev nothing_there : Dependencies
nothing_there = record {
  bus = true;
  receive_log = false;
  chat_log = false;
  chat_status = false;
  identity = none;
  positions = false;
  telemetry = false;
}

abbrev parse_nothing : Text → Parsed Unit Unit Unit
parse_nothing raw = failed (codes "not a packet")

abbrev decoder : Decoder
decoder = record { max_record_bytes = 64; pending = []; discarding = false }

process_chunks-concat_example :
    process_chunks parse_nothing nothing_there
      (codes "node")
      (some (λ raw. raw))
      (codes "EX" ∷ codes "T {}\n" ∷ [])
      decoder
    ≡ process_bytes parse_nothing nothing_there
        (codes "node")
        (some (λ raw. raw))
        (concat (codes "EX" ∷ codes "T {}\n" ∷ []))
        decoder
process_chunks-concat_example =
    process_chunks-concat parse_nothing nothing_there (codes "node") (some (λ raw. raw))
      (codes "EX" ∷ codes "T {}\n" ∷ []) decoder
