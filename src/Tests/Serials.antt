-- ===== src/Tests/Serials.antt =====
-- internal/serialbridge at a port that fails.
use gomeshcom_client.Prelude.{◌≡◌, refl, true, false, none, some, arith}
use gomeshcom_client.Text.{codes, text_eq}
use gomeshcom_client.Transport.{disconnected}
use gomeshcom_client.SerialBridge.Port.{
  PortConfig, Library, library_parity, library_stop_bits, library_mode, configure_opened_port,
  open_mode, open_device,
}
use gomeshcom_client.SerialBridge.Link.{
  Config, Bridge, new_session, new_bridge, set_connecting, set_connected, install_session,
  add_session, set_session, is_connected,
}
use gomeshcom_client.SerialBridge.Run.{Runner, idle, top, start, attempt, opened, enabled}
use gomeshcom_client.SerialBridge.Run.Sound.{
  Reach, new, step, starts, attempts, opens, enables, session_of, Reach-is_open,
}

port_opening : Unit {0}
unfolding library_parity library_stop_bits library_mode configure_opened_port open_mode open_device
    text_eq
port_opening = tt

running : Unit {0}
unfolding new_bridge set_connecting set_connected install_session add_session set_session
    is_connected start attempt opened enabled session_of
running = tt

abbrev port : PortConfig
port = record {
  device = codes "/dev/ttyUSB0";
  baud = 115200;
  data_bits = 8;
  parity = codes "none";
  stop_bits = 1;
  dtr = true;
  rts = false;
  read_timeout = 100;
}

abbrev no_rts : Library
no_rts = record { open_error = none; dtr_error = none; rts_error = some 22; timeout_error = none }

abbrev config : Config
config = record {
  port = port;
  reconnect_initial = 1000;
  reconnect_max = 30000;
  stable_reset_after = 60000;
  max_record_bytes = 4096;
}

abbrev fresh : Bridge
fresh = record {
  status = record {
    mode = codes "serial";
    state = disconnected;
    endpoint = codes "/dev/ttyUSB0";
    last_error = none;
    last_error_at = none;
    connected_at = none;
    retry_count = 0;
  };
  session = none;
  running = false;
  sessions = λ id. new_session;
  next = 0;
}

abbrev before : Runner
before = record { bridge = fresh; phase = idle; delay = 0; started_at = 0; retry_count = 0 }

abbrev started : Runner
started = record {
  bridge = record fresh { running = true };
  phase = top;
  delay = 1000;
  started_at = 0;
  retry_count = 0;
}

abbrev connected_once : Runner
connected_once = enabled 0 100 (opened (attempt 90 started))

connected_once-Reach : Reach config connected_once
unfolding running
connected_once-Reach =
    step _ _
      (step _ _
        (step _ _ (step _ _ (new before refl refl refl refl refl) (starts started refl refl))
          (attempts 90 refl))
        (opens refl))
      (enables 0 100 refl)

Reach-is_open_example : session_of connected_once.phase ≡ some 0
unfolding running
Reach-is_open_example =
    Reach-is_open config connected_once 0 connected_once-Reach (omega arith) refl
