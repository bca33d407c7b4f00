-- ===== src/Config/Toml.antt =====
-- internal/config/toml.go: the fields of the file, and how they go over those of the environment. The
-- parser of the file is a library: a file stands as the fields that it reads, `none` where a key is
-- absent. Send, Forward and RequestLog have one field each, which stands in the file itself.
use gomeshcom_client.Prelude.{ℤ, Bool, [], Option, none, some, if◌then◌else◌}
use gomeshcom_client.Text.{Text, codes}
use gomeshcom_client.Config.{
  Config, Serial, NetConsole, ReceiveLog, Stats, ChatLog, Auth, Compression, Storage, normalize,
}

pub record TomlSerial : Type 0 where
  pub device : Option Text
  pub baud : Option ℤ
  pub data_bits : Option ℤ
  pub parity : Option Text
  pub stop_bits : Option ℤ
  pub flow_control : Option Text
  pub dtr : Option Bool
  pub rts : Option Bool
  pub read_timeout : Option ℤ
  pub reconnect_initial : Option ℤ
  pub reconnect_max : Option ℤ
  pub stable_reset_after : Option ℤ
  pub max_record_bytes : Option ℤ

pub record TomlNetConsole : Type 0 where
  pub address : Option Text
  pub password : Option Text
  pub connect_timeout : Option ℤ
  pub auth_timeout : Option ℤ
  pub write_timeout : Option ℤ
  pub reconnect_initial : Option ℤ
  pub reconnect_max : Option ℤ
  pub stable_reset_after : Option ℤ
  pub max_auth_line_bytes : Option ℤ
  pub max_record_bytes : Option ℤ

pub record TomlReceiveLog : Type 0 where
  pub enabled : Option Bool
  pub replay_window : Option ℤ

pub record TomlStats : Type 0 where
  pub enabled : Option Bool
  pub retention_days : Option ℤ

pub record TomlChatLog : Type 0 where
  pub history_window : Option ℤ
  pub max_history_window : Option ℤ

pub record TomlAuth : Type 0 where
  pub username : Option Text
  pub password : Option Text
  pub session_ttl : Option ℤ
  pub cookie_name : Option Text

pub record TomlCompression : Type 0 where
  pub enabled : Option Bool
  pub minimum_size : Option ℤ

pub record TomlStorage : Type 0 where
  pub sqlite_path : Option Text
  pub purge_interval : Option ℤ
  pub receive_log_retention : Option ℤ
  pub public_chat_retention : Option ℤ
  pub nodes_retention : Option ℤ
  pub telemetry_retention : Option ℤ

pub record TomlFile : Type 0 where
  pub http_addr : Option Text
  pub transport_mode : Option Text
  pub udp_listen_addr : Option Text
  pub node_addr : Option Text
  pub my_call : Option Text
  pub data_dir : Option Text
  pub max_message_length : Option ℤ
  pub demo_mode : Option Bool
  pub log_level : Option Text
  pub serial : Option TomlSerial
  pub netconsole : Option TomlNetConsole
  pub receive_log : Option TomlReceiveLog
  pub stats : Option TomlStats
  pub chat_log : Option TomlChatLog
  pub auth : Option TomlAuth
  pub compression : Option TomlCompression
  pub storage : Option TomlStorage
  pub dedup_ttl : Option ℤ
  pub forward_targets : Option Text
  pub request_log : Option Bool

-- Which variables of the environment are set.
abbrev pub EnvOverrides : Type 0
EnvOverrides = Text → Bool

-- `if new != nil && !env[suffix] { old = *new }`
abbrev pub choose {ℓ} : {A : Type ℓ} → Bool → Option A → A → A
choose is_set none old = old
choose is_set (some new) old = if is_set then old else new

unfoldable pub merge_serial : EnvOverrides → TomlSerial → Serial → Serial
merge_serial env t c = record {
  device = choose (env (codes "SERIAL_DEVICE")) t.device c.device;
  baud = choose (env (codes "SERIAL_BAUD")) t.baud c.baud;
  data_bits = choose (env (codes "SERIAL_DATA_BITS")) t.data_bits c.data_bits;
  parity = choose (env (codes "SERIAL_PARITY")) t.parity c.parity;
  stop_bits = choose (env (codes "SERIAL_STOP_BITS")) t.stop_bits c.stop_bits;
  flow_control = choose (env (codes "SERIAL_FLOW_CONTROL")) t.flow_control c.flow_control;
  dtr = choose (env (codes "SERIAL_DTR")) t.dtr c.dtr;
  rts = choose (env (codes "SERIAL_RTS")) t.rts c.rts;
  read_timeout = choose (env (codes "SERIAL_READ_TIMEOUT")) t.read_timeout c.read_timeout;
  reconnect_initial =
      choose (env (codes "SERIAL_RECONNECT_INITIAL")) t.reconnect_initial c.reconnect_initial;
  reconnect_max = choose (env (codes "SERIAL_RECONNECT_MAX")) t.reconnect_max c.reconnect_max;
  stable_reset_after =
      choose (env (codes "SERIAL_STABLE_RESET_AFTER")) t.stable_reset_after c.stable_reset_after;
  max_record_bytes =
      choose (env (codes "SERIAL_MAX_RECORD_BYTES")) t.max_record_bytes c.max_record_bytes;
}

unfoldable pub merge_netconsole : EnvOverrides → TomlNetConsole → NetConsole → NetConsole
merge_netconsole env t c = record {
  address = choose (env (codes "NETCONSOLE_ADDRESS")) t.address c.address;
  password = choose (env (codes "NETCONSOLE_PASSWORD")) t.password c.password;
  connect_timeout =
      choose (env (codes "NETCONSOLE_CONNECT_TIMEOUT")) t.connect_timeout c.connect_timeout;
  auth_timeout = choose (env (codes "NETCONSOLE_AUTH_TIMEOUT")) t.auth_timeout c.auth_timeout;
  write_timeout = choose (env (codes "NETCONSOLE_WRITE_TIMEOUT")) t.write_timeout c.write_timeout;
  reconnect_initial =
      choose (env (codes "NETCONSOLE_RECONNECT_INITIAL")) t.reconnect_initial c.reconnect_initial;
  reconnect_max = choose (env (codes "NETCONSOLE_RECONNECT_MAX")) t.reconnect_max c.reconnect_max;
  stable_reset_after =
      choose (env (codes "NETCONSOLE_STABLE_RESET_AFTER")) t.stable_reset_after
        c.stable_reset_after;
  max_auth_line_bytes =
      choose (env (codes "NETCONSOLE_MAX_AUTH_LINE_BYTES")) t.max_auth_line_bytes
        c.max_auth_line_bytes;
  max_record_bytes =
      choose (env (codes "NETCONSOLE_MAX_RECORD_BYTES")) t.max_record_bytes c.max_record_bytes;
}

unfoldable pub merge_receive_log : EnvOverrides → TomlReceiveLog → ReceiveLog → ReceiveLog
merge_receive_log env t c = record {
  enabled = choose (env (codes "RECEIVE_LOG_ENABLED")) t.enabled c.enabled;
  replay_window = choose (env (codes "RECEIVE_LOG_REPLAY_WINDOW")) t.replay_window c.replay_window;
}

unfoldable pub merge_stats : EnvOverrides → TomlStats → Stats → Stats
merge_stats env t c = record {
  enabled = choose (env (codes "STATS_ENABLED")) t.enabled c.enabled;
  retention_days = choose (env (codes "STATS_RETENTION_DAYS")) t.retention_days c.retention_days;
}

unfoldable pub merge_chat_log : EnvOverrides → TomlChatLog → ChatLog → ChatLog
merge_chat_log env t c = record {
  history_window = choose (env (codes "CHAT_LOG_HISTORY_WINDOW")) t.history_window c.history_window;
  max_history_window =
      choose (env (codes "CHAT_LOG_MAX_HISTORY_WINDOW")) t.max_history_window c.max_history_window;
}

unfoldable pub merge_auth : EnvOverrides → TomlAuth → Auth → Auth
merge_auth env t c = record {
  username = choose (env (codes "AUTH_USERNAME")) t.username c.username;
  password = choose (env (codes "AUTH_PASSWORD")) t.password c.password;
  session_ttl = choose (env (codes "AUTH_SESSION_TTL")) t.session_ttl c.session_ttl;
  cookie_name = choose (env (codes "AUTH_COOKIE_NAME")) t.cookie_name c.cookie_name;
}

unfoldable pub merge_compression : EnvOverrides → TomlCompression → Compression → Compression
merge_compression env t c = record {
  enabled = choose (env (codes "COMPRESSION_ENABLED")) t.enabled c.enabled;
  minimum_size = choose (env (codes "COMPRESSION_MINIMUM_SIZE")) t.minimum_size c.minimum_size;
}

unfoldable pub merge_storage : EnvOverrides → TomlStorage → Storage → Storage
merge_storage env t c = record {
  sqlite_path = choose (env (codes "STORAGE_SQLITE_PATH")) t.sqlite_path c.sqlite_path;
  purge_interval = choose (env (codes "STORAGE_PURGE_INTERVAL")) t.purge_interval c.purge_interval;
  receive_log_retention =
      choose (env (codes "STORAGE_RECEIVE_LOG_RETENTION")) t.receive_log_retention
        c.receive_log_retention;
  public_chat_retention =
      choose (env (codes "STORAGE_PUBLIC_CHAT_RETENTION")) t.public_chat_retention
        c.public_chat_retention;
  nodes_retention =
      choose (env (codes "STORAGE_NODES_RETENTION")) t.nodes_retention c.nodes_retention;
  telemetry_retention =
      choose (env (codes "STORAGE_TELEMETRY_RETENTION")) t.telemetry_retention
        c.telemetry_retention;
}

-- A section that is absent changes nothing.
abbrev pub merge_section {ℓ κ} : {T : Type ℓ} {C : Type κ} → (T → C → C) → Option T → C → C
merge_section merge none c = c
merge_section merge (some t) c = merge t c

-- `mergeToml` on a file that is there.
unfoldable pub merge_file : EnvOverrides → TomlFile → Config → Config
merge_file env t c = record {
  http_addr = choose (env (codes "HTTP_ADDR")) t.http_addr c.http_addr;
  transport_mode = choose (env (codes "TRANSPORT_MODE")) t.transport_mode c.transport_mode;
  udp_listen_addr = choose (env (codes "UDP_LISTEN_ADDR")) t.udp_listen_addr c.udp_listen_addr;
  node_addr = choose (env (codes "NODE_ADDR")) t.node_addr c.node_addr;
  my_call = choose (env (codes "MY_CALL")) t.my_call c.my_call;
  data_dir = c.data_dir;
  max_message_length =
      choose (env (codes "MAX_MESSAGE_LENGTH")) t.max_message_length c.max_message_length;
  demo_mode = choose (env (codes "DEMO_MODE")) t.demo_mode c.demo_mode;
  receive_log = merge_section (merge_receive_log env) t.receive_log c.receive_log;
  chat_log = merge_section (merge_chat_log env) t.chat_log c.chat_log;
  stats = merge_section (merge_stats env) t.stats c.stats;
  dedup_ttl = choose (env (codes "SEND_DEDUP_TTL")) t.dedup_ttl c.dedup_ttl;
  forward_targets = choose (env (codes "FORWARD_TARGETS")) t.forward_targets c.forward_targets;
  auth = merge_section (merge_auth env) t.auth c.auth;
  request_log = choose (env (codes "REQUEST_LOG_ENABLED")) t.request_log c.request_log;
  compression = merge_section (merge_compression env) t.compression c.compression;
  storage = merge_section (merge_storage env) t.storage c.storage;
  serial = merge_section (merge_serial env) t.serial c.serial;
  netconsole = merge_section (merge_netconsole env) t.netconsole c.netconsole;
  log_level = choose (env (codes "LOG_LEVEL")) t.log_level c.log_level;
}

-- `none` is a file that does not exist.
unfoldable pub merge_toml : EnvOverrides → Option TomlFile → Config → Config
merge_toml env none c = c
merge_toml env (some t) c = merge_file env t c

-- The fields that `buildTomlContent` writes, of a configuration in its canonical form.
unfoldable pub saved_fields : Config → TomlFile
saved_fields c = record {
  http_addr = some c.http_addr;
  transport_mode = some c.transport_mode;
  udp_listen_addr = some c.udp_listen_addr;
  node_addr = some c.node_addr;
  my_call = some c.my_call;
  data_dir = some c.data_dir;
  max_message_length = some c.max_message_length;
  demo_mode = some c.demo_mode;
  log_level = some c.log_level;
  serial = some (record {
    device = some c.serial.device;
    baud = some c.serial.baud;
    data_bits = some c.serial.data_bits;
    parity = some c.serial.parity;
    stop_bits = some c.serial.stop_bits;
    flow_control = some c.serial.flow_control;
    dtr = some c.serial.dtr;
    rts = some c.serial.rts;
    read_timeout = some c.serial.read_timeout;
    reconnect_initial = some c.serial.reconnect_initial;
    reconnect_max = some c.serial.reconnect_max;
    stable_reset_after = some c.serial.stable_reset_after;
    max_record_bytes = some c.serial.max_record_bytes;
  });
  netconsole = some (record {
    address = some c.netconsole.address;
    password = some c.netconsole.password;
    connect_timeout = some c.netconsole.connect_timeout;
    auth_timeout = some c.netconsole.auth_timeout;
    write_timeout = some c.netconsole.write_timeout;
    reconnect_initial = some c.netconsole.reconnect_initial;
    reconnect_max = some c.netconsole.reconnect_max;
    stable_reset_after = some c.netconsole.stable_reset_after;
    max_auth_line_bytes = some c.netconsole.max_auth_line_bytes;
    max_record_bytes = some c.netconsole.max_record_bytes;
  });
  receive_log = some (record {
    enabled = some c.receive_log.enabled;
    replay_window = some c.receive_log.replay_window;
  });
  stats =
      some
        (record { enabled = some c.stats.enabled; retention_days = some c.stats.retention_days });
  chat_log = some (record {
    history_window = some c.chat_log.history_window;
    max_history_window = some c.chat_log.max_history_window;
  });
  auth = some (record {
    username = some c.auth.username;
    password = some [];
    session_ttl = some c.auth.session_ttl;
    cookie_name = some c.auth.cookie_name;
  });
  compression = some (record {
    enabled = some c.compression.enabled;
    minimum_size = some c.compression.minimum_size;
  });
  storage = some (record {
    sqlite_path = some c.storage.sqlite_path;
    purge_interval = some c.storage.purge_interval;
    receive_log_retention = some c.storage.receive_log_retention;
    public_chat_retention = some c.storage.public_chat_retention;
    nodes_retention = some c.storage.nodes_retention;
    telemetry_retention = some c.storage.telemetry_retention;
  });
  dedup_ttl = some c.dedup_ttl;
  forward_targets = some c.forward_targets;
  request_log = some c.request_log;
}

-- `buildTomlContent`
unfoldable pub build_toml_content : Config → TomlFile
build_toml_content c = saved_fields (normalize c)
