-- ===== src/HttpApi/Settings/Shown.antt =====
-- internal/httpapi/configapi.go: the configuration as `getConfig` answers it, without the version and
-- the times of the server. `show` is `Duration.String`.
use gomeshcom_client.Prelude.{ℤ, Bool, true, false, [], Option, none, some, if◌then◌else◌}
use gomeshcom_client.Text.{Text, codes, text_eq}
use gomeshcom_client.Config.{Config, Serial, NetConsole, ReceiveLog, Stats, ChatLog, Auth, Storage}
use gomeshcom_client.Config.Toml.{EnvOverrides}
use gomeshcom_client.HttpApi.Settings.Apply.{password_mask}

-- `configFieldMeta`
pub record FieldMeta {ℓ} (A : Type ℓ) : Type ℓ where
  pub value : A
  pub env_override : Bool
  pub requires_restart : Bool

pub record ReceiveLogResponse : Type 0 where
  pub enabled : FieldMeta Bool
  pub replay_window : FieldMeta Text

pub record StatsResponse : Type 0 where
  pub enabled : FieldMeta Bool
  pub retention_days : FieldMeta ℤ

pub record ChatLogResponse : Type 0 where
  pub history_window : FieldMeta Text
  pub max_history_window : FieldMeta Text

pub record AuthResponse : Type 0 where
  pub username : FieldMeta Text
  pub password : FieldMeta Text
  pub session_ttl : FieldMeta Text
  pub cookie_name : FieldMeta Text

pub record StorageResponse : Type 0 where
  pub sqlite_path : FieldMeta Text
  pub purge_interval : FieldMeta Text
  pub receive_log_retention : FieldMeta Text
  pub public_chat_retention : FieldMeta Text
  pub nodes_retention : FieldMeta Text
  pub telemetry_retention : FieldMeta Text

pub record SerialResponse : Type 0 where
  pub device : FieldMeta Text
  pub baud : FieldMeta ℤ
  pub data_bits : FieldMeta ℤ
  pub parity : FieldMeta Text
  pub stop_bits : FieldMeta ℤ
  pub flow_control : FieldMeta Text
  pub dtr : FieldMeta Bool
  pub rts : FieldMeta Bool
  pub read_timeout : FieldMeta Text
  pub reconnect_initial : FieldMeta Text
  pub reconnect_max : FieldMeta Text
  pub stable_reset_after : FieldMeta Text
  pub max_record_bytes : FieldMeta ℤ

pub record NetConsoleResponse : Type 0 where
  pub address : FieldMeta Text
  pub password : FieldMeta Text
  pub connect_timeout : FieldMeta Text
  pub auth_timeout : FieldMeta Text
  pub write_timeout : FieldMeta Text
  pub reconnect_initial : FieldMeta Text
  pub reconnect_max : FieldMeta Text
  pub stable_reset_after : FieldMeta Text
  pub max_auth_line_bytes : FieldMeta ℤ
  pub max_record_bytes : FieldMeta ℤ

pub record ConfigResponse : Type 0 where
  pub http_addr : FieldMeta Text
  pub transport_mode : FieldMeta Text
  pub udp_listen_addr : FieldMeta Text
  pub node_addr : FieldMeta Text
  pub my_call : FieldMeta Text
  pub data_dir : FieldMeta Text
  pub max_message_length : FieldMeta ℤ
  pub log_level : FieldMeta Text
  pub receive_log : ReceiveLogResponse
  pub stats : StatsResponse
  pub chat_log : ChatLogResponse
  pub auth : AuthResponse
  pub storage : StorageResponse
  pub serial : SerialResponse
  pub netconsole : NetConsoleResponse
  pub dedup_ttl : FieldMeta Text
  pub forward_targets : FieldMeta Text
  pub request_log : FieldMeta Bool

unfoldable pub field {ℓ} : {A : Type ℓ} → A → Text → EnvOverrides → Bool → FieldMeta A
field value env_key env restart = record {
  value = value;
  env_override = env env_key;
  requires_restart = restart;
}

unfoldable pub password_display : Text → Text
password_display p = if text_eq p [] then [] else password_mask

module _ (show : ℤ → Text) where
  unfoldable pub duration_field : ℤ → Text → EnvOverrides → Bool → FieldMeta Text
  duration_field d env_key env restart = field (show d) env_key env restart

  unfoldable pub receive_log_response : EnvOverrides → ReceiveLog → ReceiveLogResponse
  receive_log_response env c = record {
    enabled = field c.enabled (codes "RECEIVE_LOG_ENABLED") env true;
    replay_window = duration_field c.replay_window (codes "RECEIVE_LOG_REPLAY_WINDOW") env true;
  }

  unfoldable pub stats_response : EnvOverrides → Stats → StatsResponse
  stats_response env c = record {
    enabled = field c.enabled (codes "STATS_ENABLED") env true;
    retention_days = field c.retention_days (codes "STATS_RETENTION_DAYS") env true;
  }

  unfoldable pub chat_log_response : EnvOverrides → ChatLog → ChatLogResponse
  chat_log_response env c = record {
    history_window = duration_field c.history_window (codes "CHAT_LOG_HISTORY_WINDOW") env false;
    max_history_window =
        duration_field c.max_history_window (codes "CHAT_LOG_MAX_HISTORY_WINDOW") env false;
  }

  unfoldable pub auth_response : EnvOverrides → Auth → AuthResponse
  auth_response env c = record {
    username = field c.username (codes "AUTH_USERNAME") env true;
    password = field (password_display c.password) (codes "AUTH_PASSWORD") env true;
    session_ttl = duration_field c.session_ttl (codes "AUTH_SESSION_TTL") env true;
    cookie_name = field c.cookie_name (codes "AUTH_COOKIE_NAME") env true;
  }

  unfoldable pub storage_response : EnvOverrides → Storage → StorageResponse
  storage_response env c = record {
    sqlite_path = field c.sqlite_path (codes "STORAGE_SQLITE_PATH") env true;
    purge_interval = duration_field c.purge_interval (codes "STORAGE_PURGE_INTERVAL") env true;
    receive_log_retention =
        duration_field c.receive_log_retention (codes "STORAGE_RECEIVE_LOG_RETENTION") env true;
    public_chat_retention =
        duration_field c.public_chat_retention (codes "STORAGE_PUBLIC_CHAT_RETENTION") env true;
    nodes_retention = duration_field c.nodes_retention (codes "STORAGE_NODES_RETENTION") env true;
    telemetry_retention =
        duration_field c.telemetry_retention (codes "STORAGE_TELEMETRY_RETENTION") env true;
  }

  unfoldable pub serial_response : EnvOverrides → Serial → SerialResponse
  serial_response env c = record {
    device = field c.device (codes "SERIAL_DEVICE") env true;
    baud = field c.baud (codes "SERIAL_BAUD") env true;
    data_bits = field c.data_bits (codes "SERIAL_DATA_BITS") env true;
    parity = field c.parity (codes "SERIAL_PARITY") env true;
    stop_bits = field c.stop_bits (codes "SERIAL_STOP_BITS") env true;
    flow_control = field c.flow_control (codes "SERIAL_FLOW_CONTROL") env true;
    dtr = field c.dtr (codes "SERIAL_DTR") env true;
    rts = field c.rts (codes "SERIAL_RTS") env true;
    read_timeout = duration_field c.read_timeout (codes "SERIAL_READ_TIMEOUT") env true;
    reconnect_initial =
        duration_field c.reconnect_initial (codes "SERIAL_RECONNECT_INITIAL") env true;
    reconnect_max = duration_field c.reconnect_max (codes "SERIAL_RECONNECT_MAX") env true;
    stable_reset_after =
        duration_field c.stable_reset_after (codes "SERIAL_STABLE_RESET_AFTER") env true;
    max_record_bytes = field c.max_record_bytes (codes "SERIAL_MAX_RECORD_BYTES") env true;
  }

  unfoldable pub netconsole_response : EnvOverrides → NetConsole → NetConsoleResponse
  netconsole_response env c = record {
    address = field c.address (codes "NETCONSOLE_ADDRESS") env true;
    password = field (password_display c.password) (codes "NETCONSOLE_PASSWORD") env true;
    connect_timeout =
        duration_field c.connect_timeout (codes "NETCONSOLE_CONNECT_TIMEOUT") env true;
    auth_timeout = duration_field c.auth_timeout (codes "NETCONSOLE_AUTH_TIMEOUT") env true;
    write_timeout = duration_field c.write_timeout (codes "NETCONSOLE_WRITE_TIMEOUT") env true;
    reconnect_initial =
        duration_field c.reconnect_initial (codes "NETCONSOLE_RECONNECT_INITIAL") env true;
    reconnect_max = duration_field c.reconnect_max (codes "NETCONSOLE_RECONNECT_MAX") env true;
    stable_reset_after =
        duration_field c.stable_reset_after (codes "NETCONSOLE_STABLE_RESET_AFTER") env true;
    max_auth_line_bytes =
        field c.max_auth_line_bytes (codes "NETCONSOLE_MAX_AUTH_LINE_BYTES") env true;
    max_record_bytes = field c.max_record_bytes (codes "NETCONSOLE_MAX_RECORD_BYTES") env true;
  }

  unfoldable pub build_config_response : Config → EnvOverrides → ConfigResponse
  build_config_response c env = record {
    http_addr = field c.http_addr (codes "HTTP_ADDR") env true;
    transport_mode = field c.transport_mode (codes "TRANSPORT_MODE") env true;
    udp_listen_addr = field c.udp_listen_addr (codes "UDP_LISTEN_ADDR") env true;
    node_addr = field c.node_addr (codes "NODE_ADDR") env true;
    my_call = field c.my_call (codes "MY_CALL") env false;
    data_dir = field c.data_dir (codes "DATA_DIR") env true;
    max_message_length = field c.max_message_length (codes "MAX_MESSAGE_LENGTH") env true;
    log_level = field c.log_level (codes "LOG_LEVEL") env false;
    receive_log = receive_log_response env c.receive_log;
    stats = stats_response env c.stats;
    chat_log = chat_log_response env c.chat_log;
    auth = auth_response env c.auth;
    storage = storage_response env c.storage;
    serial = serial_response env c.serial;
    netconsole = netconsole_response env c.netconsole;
    dedup_ttl = duration_field c.dedup_ttl (codes "SEND_DEDUP_TTL") env false;
    forward_targets = field c.forward_targets (codes "FORWARD_TARGETS") env true;
    request_log = field c.request_log (codes "REQUEST_LOG_ENABLED") env false;
  }

  -- `getConfig`; `none` is the answer in demo mode.
  unfoldable pub get_config : Config → EnvOverrides → Option ConfigResponse
  get_config c env = if c.demo_mode then none else some (build_config_response c env)
