-- ===== src/Config.antt =====
-- internal/config/config.go: the configuration, its defaults and its canonical form. Durations are
-- nanoseconds, and integers are Go's `int`.
pub mod Check
pub mod Toml
pub mod Durations
pub mod Accepted
pub mod Restored
pub mod Strings
use gomeshcom_client.Prelude.{
  ℕ, ◌*◌, ℤ, pos, negsuc, Bool, true, false, ◌||◌, not, [], ◌∷◌, if◌then◌else◌, ◌==◌,
}
use gomeshcom_client.Text.{Text, codes, text_eq, to_lower, trim_space}
use gomeshcom_client.Callsign

pub record Serial : Type 0 where
  pub device : Text
  pub baud : ℤ
  pub data_bits : ℤ
  pub parity : Text
  pub stop_bits : ℤ
  pub flow_control : Text
  pub dtr : Bool
  pub rts : Bool
  pub read_timeout : ℤ
  pub reconnect_initial : ℤ
  pub reconnect_max : ℤ
  pub stable_reset_after : ℤ
  pub max_record_bytes : ℤ

pub record NetConsole : Type 0 where
  pub address : Text
  pub password : Text
  pub connect_timeout : ℤ
  pub auth_timeout : ℤ
  pub write_timeout : ℤ
  pub reconnect_initial : ℤ
  pub reconnect_max : ℤ
  pub stable_reset_after : ℤ
  pub max_auth_line_bytes : ℤ
  pub max_record_bytes : ℤ

pub record ReceiveLog : Type 0 where
  pub enabled : Bool
  pub replay_window : ℤ

pub record Stats : Type 0 where
  pub enabled : Bool
  pub retention_days : ℤ

pub record ChatLog : Type 0 where
  pub history_window : ℤ
  pub max_history_window : ℤ

pub record Auth : Type 0 where
  pub username : Text
  pub password : Text
  pub session_ttl : ℤ
  pub cookie_name : Text

pub record Compression : Type 0 where
  pub enabled : Bool
  pub minimum_size : ℤ

pub record Storage : Type 0 where
  pub sqlite_path : Text
  pub purge_interval : ℤ
  pub receive_log_retention : ℤ
  pub public_chat_retention : ℤ
  pub nodes_retention : ℤ
  pub telemetry_retention : ℤ

-- Send, Forward and RequestLog have one field each, which stands here.
pub record Config : Type 0 where
  pub http_addr : Text
  pub transport_mode : Text
  pub udp_listen_addr : Text
  pub node_addr : Text
  pub my_call : Text
  pub data_dir : Text
  pub max_message_length : ℤ
  pub demo_mode : Bool
  pub receive_log : ReceiveLog
  pub chat_log : ChatLog
  pub stats : Stats
  pub dedup_ttl : ℤ
  pub forward_targets : Text
  pub auth : Auth
  pub request_log : Bool
  pub compression : Compression
  pub storage : Storage
  pub serial : Serial
  pub netconsole : NetConsole
  pub log_level : Text

abbrev pub second : ℕ
second = 1000000000

abbrev pub hours : ℕ → ℤ
hours n = pos (n * 3600 * second)

abbrev pub seconds : ℕ → ℤ
seconds n = pos (n * second)

abbrev pub transport_udp : Text
transport_udp = codes "udp"

abbrev pub transport_serial : Text
transport_serial = codes "serial"

abbrev pub transport_netconsole : Text
transport_netconsole = codes "netconsole"

unfoldable pub built_in_default_config : Config
built_in_default_config = record {
  http_addr = codes "127.0.0.1:8080";
  transport_mode = transport_udp;
  udp_listen_addr = codes "0.0.0.0:1799";
  node_addr = [];
  my_call = codes "QQ0XX-1";
  data_dir = codes "./data";
  max_message_length = pos 149;
  demo_mode = false;
  receive_log = record { enabled = true; replay_window = hours 1 };
  chat_log = record { history_window = hours 24; max_history_window = hours 720 };
  stats = record { enabled = true; retention_days = pos 30 };
  dedup_ttl = seconds 2;
  forward_targets = [];
  auth = record {
    username = [];
    password = [];
    session_ttl = hours 24;
    cookie_name = codes "meshcom_session";
  };
  request_log = false;
  compression = record { enabled = true; minimum_size = pos 1024 };
  storage = record {
    sqlite_path = codes "./data/gomeshcom.db";
    purge_interval = hours 4;
    receive_log_retention = hours 720;
    public_chat_retention = hours 720;
    nodes_retention = hours 168;
    telemetry_retention = hours 720;
  };
  serial = record {
    device = [];
    baud = pos 115200;
    data_bits = pos 8;
    parity = codes "none";
    stop_bits = pos 1;
    flow_control = codes "none";
    dtr = false;
    rts = false;
    read_timeout = seconds 1;
    reconnect_initial = seconds 1;
    reconnect_max = seconds 30;
    stable_reset_after = seconds 30;
    max_record_bytes = pos 65536;
  };
  netconsole = record {
    address = [];
    password = [];
    connect_timeout = seconds 5;
    auth_timeout = seconds 5;
    write_timeout = seconds 5;
    reconnect_initial = seconds 1;
    reconnect_max = seconds 30;
    stable_reset_after = seconds 30;
    max_auth_line_bytes = pos 128;
    max_record_bytes = pos 65536;
  };
  log_level = codes "info";
}

abbrev pub nonzero : ℤ → Bool
nonzero (pos n) = not (n == 0)
nonzero (negsuc n) = true

unfoldable pub normalize_storage : Storage → Storage
normalize_storage s =
    if nonzero s.purge_interval
      || (nonzero s.receive_log_retention
          || (nonzero s.public_chat_retention || nonzero s.nodes_retention))
    then s
    else record s {
      purge_interval = hours 4;
      receive_log_retention = hours 720;
      public_chat_retention = hours 720;
      nodes_retention = hours 168;
    }

-- `strings.ToLower(strings.TrimSpace(s))`
unfoldable pub lower_trimmed : Text → Text
lower_trimmed s = to_lower (trim_space s)

unfoldable pub normalize : Config → Config
normalize c =
    let mode = lower_trimmed c.transport_mode in
    record c {
      transport_mode = if text_eq mode [] then transport_udp else mode;
      my_call = Callsign.normalize c.my_call;
      serial = record (c.serial) {
        device = trim_space c.serial.device;
        parity = lower_trimmed c.serial.parity;
        flow_control = lower_trimmed c.serial.flow_control;
      };
      netconsole = record (c.netconsole) { address = trim_space c.netconsole.address };
      storage = normalize_storage c.storage;
    }
