-- ===== src/HttpApi/Settings/Apply.antt =====
-- internal/httpapi/configapi.go: the fields of a request over those of the configuration.
use gomeshcom_client.Prelude.{ℤ, Bool, true, false, ◌||◌, [], Option, none, some, if◌then◌else◌}
use gomeshcom_client.Text.{Text, codes, text_eq}
use gomeshcom_client.Config.{Config, Serial, NetConsole, ReceiveLog, Stats, ChatLog, Auth, Storage}
use gomeshcom_client.Config.Check.{ConfigError}
use gomeshcom_client.Config.Durations.{parse_duration}
use gomeshcom_client.HttpApi.Settings.Request.{
  UpdateReceiveLog, UpdateStats, UpdateChatLog, UpdateAuth, UpdateStorage, UpdateSerial,
  UpdateNetConsole, UpdateRequest,
}

abbrev pub password_mask : Text
password_mask = codes "****"

-- The errors: a duration of a field, a field of a variable of the environment, the configuration, the
-- file, and the callsign.
pub data UpdateError : Type 0 where
  demo_mode : UpdateError
  bad_duration locked : Text → UpdateError
  invalid : ConfigError → UpdateError
  persist_failed bad_callsign : UpdateError

-- What is wanted, or an error.
pub data Result {ℓ} (A : Type ℓ) : Type ℓ where
  ok : A → Result A
  err : UpdateError → Result A

infixl 5 ◌>>=◌
abbrev pub ◌>>=◌ {ℓ κ} : {A : Type ℓ} {B : Type κ} → Result A → (A → Result B) → Result B
ok a >>= f = f a
err e >>= f = err e

abbrev pub is_some {ℓ} : {A : Type ℓ} → Option A → Bool
is_some none = false
is_some (some a) = true

-- `if new != nil { old = *new }`
abbrev pub set {ℓ} : {A : Type ℓ} → Option A → A → A
set none old = old
set (some new) old = new

abbrev pub parsed {ℓ} : {A : Type ℓ} → Text → Option A → Result A
parsed name none = err (bad_duration name)
parsed name (some d) = ok d

-- `if new != nil { duration, err := parse(*new) ... }`
unfoldable pub set_duration : (Text → Option ℤ) → Text → Option Text → ℤ → Result ℤ
set_duration parse name none old = ok old
set_duration parse name (some s) old = parsed name (parse s)

-- A password of the HTTP API is taken if it is neither empty nor the mask.
unfoldable pub new_password : Option Text → Option Text
new_password none = none
new_password (some p) = if text_eq p [] || text_eq p password_mask then none else some p

-- That of NETConsole is taken if it is not the mask.
unfoldable pub new_console_password : Option Text → Option Text
new_console_password none = none
new_console_password (some p) = if text_eq p password_mask then none else some p

unfoldable pub apply_receive_log :
    (Text → Option ℤ) → UpdateReceiveLog → ReceiveLog → Result ReceiveLog
apply_receive_log parse u c = do
  replay_window ←
      set_duration parse (codes "receive_log.replay_window") u.replay_window c.replay_window
  ok (record { enabled = set u.enabled c.enabled; replay_window = replay_window })

unfoldable pub apply_stats : UpdateStats → Stats → Stats
apply_stats u c = record {
  enabled = set u.enabled c.enabled;
  retention_days = set u.retention_days c.retention_days;
}

unfoldable pub apply_chat_log : (Text → Option ℤ) → UpdateChatLog → ChatLog → Result ChatLog
apply_chat_log parse u c = do
  history_window ←
      set_duration parse (codes "chat_log.history_window") u.history_window c.history_window
  max_history_window ←
      set_duration parse (codes "chat_log.max_history_window") u.max_history_window
        c.max_history_window
  ok (record { history_window = history_window; max_history_window = max_history_window })

unfoldable pub apply_auth : (Text → Option ℤ) → UpdateAuth → Auth → Result Auth
apply_auth parse u c = do
  session_ttl ← set_duration parse (codes "auth.session_ttl") u.session_ttl c.session_ttl
  ok (record {
    username = set u.username c.username;
    password = set (new_password u.password) c.password;
    session_ttl = session_ttl;
    cookie_name = set u.cookie_name c.cookie_name;
  })

unfoldable pub apply_storage : (Text → Option ℤ) → UpdateStorage → Storage → Result Storage
apply_storage parse u c = do
  purge_interval ←
      set_duration parse (codes "storage.purge_interval") u.purge_interval c.purge_interval
  receive_log_retention ←
      set_duration parse (codes "storage.receive_log_retention") u.receive_log_retention
        c.receive_log_retention
  public_chat_retention ←
      set_duration parse (codes "storage.public_chat_retention") u.public_chat_retention
        c.public_chat_retention
  nodes_retention ←
      set_duration parse (codes "storage.nodes_retention") u.nodes_retention c.nodes_retention
  telemetry_retention ←
      set_duration parse (codes "storage.telemetry_retention") u.telemetry_retention
        c.telemetry_retention
  ok (record {
    sqlite_path = set u.sqlite_path c.sqlite_path;
    purge_interval = purge_interval;
    receive_log_retention = receive_log_retention;
    public_chat_retention = public_chat_retention;
    nodes_retention = nodes_retention;
    telemetry_retention = telemetry_retention;
  })

unfoldable pub apply_serial : (Text → Option ℤ) → UpdateSerial → Serial → Result Serial
apply_serial parse u c = do
  read_timeout ← set_duration parse (codes "serial.read_timeout") u.read_timeout c.read_timeout
  reconnect_initial ←
      set_duration parse (codes "serial.reconnect_initial") u.reconnect_initial c.reconnect_initial
  reconnect_max ← set_duration parse (codes "serial.reconnect_max") u.reconnect_max c.reconnect_max
  stable_reset_after ←
      set_duration parse (codes "serial.stable_reset_after") u.stable_reset_after
        c.stable_reset_after
  ok (record {
    device = set u.device c.device;
    baud = set u.baud c.baud;
    data_bits = set u.data_bits c.data_bits;
    parity = set u.parity c.parity;
    stop_bits = set u.stop_bits c.stop_bits;
    flow_control = set u.flow_control c.flow_control;
    dtr = set u.dtr c.dtr;
    rts = set u.rts c.rts;
    read_timeout = read_timeout;
    reconnect_initial = reconnect_initial;
    reconnect_max = reconnect_max;
    stable_reset_after = stable_reset_after;
    max_record_bytes = set u.max_record_bytes c.max_record_bytes;
  })

unfoldable pub apply_netconsole :
    (Text → Option ℤ) → UpdateNetConsole → NetConsole → Result NetConsole
apply_netconsole parse u c = do
  connect_timeout ←
      set_duration parse (codes "netconsole.connect_timeout") u.connect_timeout c.connect_timeout
  auth_timeout ← set_duration parse (codes "netconsole.auth_timeout") u.auth_timeout c.auth_timeout
  write_timeout ←
      set_duration parse (codes "netconsole.write_timeout") u.write_timeout c.write_timeout
  reconnect_initial ←
      set_duration parse (codes "netconsole.reconnect_initial") u.reconnect_initial
        c.reconnect_initial
  reconnect_max ←
      set_duration parse (codes "netconsole.reconnect_max") u.reconnect_max c.reconnect_max
  stable_reset_after ←
      set_duration parse (codes "netconsole.stable_reset_after") u.stable_reset_after
        c.stable_reset_after
  ok (record {
    address = set u.address c.address;
    password = set (new_console_password u.password) c.password;
    connect_timeout = connect_timeout;
    auth_timeout = auth_timeout;
    write_timeout = write_timeout;
    reconnect_initial = reconnect_initial;
    reconnect_max = reconnect_max;
    stable_reset_after = stable_reset_after;
    max_auth_line_bytes = set u.max_auth_line_bytes c.max_auth_line_bytes;
    max_record_bytes = set u.max_record_bytes c.max_record_bytes;
  })

-- A section that is absent changes nothing.
abbrev pub apply_section {ℓ κ} :
    {U : Type ℓ} {C : Type κ} → (U → C → Result C) → Option U → C → Result C
apply_section apply none c = ok c
apply_section apply (some u) c = apply u c

-- `std` is `time.ParseDuration`, which some sections are read with; the others are read with
-- `config.ParseDuration` on it.
unfoldable pub apply_request : (Text → Option ℤ) → UpdateRequest → Config → Result Config
apply_request std u c = do
  receive_log ← apply_section (apply_receive_log std) u.receive_log c.receive_log
  chat_log ← apply_section (apply_chat_log std) u.chat_log c.chat_log
  dedup_ttl ← set_duration std (codes "send.dedup_ttl") u.dedup_ttl c.dedup_ttl
  auth ← apply_section (apply_auth std) u.auth c.auth
  storage ← apply_section (apply_storage (parse_duration std)) u.storage c.storage
  serial ← apply_section (apply_serial (parse_duration std)) u.serial c.serial
  netconsole ← apply_section (apply_netconsole (parse_duration std)) u.netconsole c.netconsole
  ok (record c {
    http_addr = set u.http_addr c.http_addr;
    transport_mode = set u.transport_mode c.transport_mode;
    udp_listen_addr = set u.udp_listen_addr c.udp_listen_addr;
    node_addr = set u.node_addr c.node_addr;
    my_call = set u.my_call c.my_call;
    max_message_length = set u.max_message_length c.max_message_length;
    log_level = set u.log_level c.log_level;
    receive_log = receive_log;
    chat_log = chat_log;
    stats = elim (u.stats) [ none ↦ c.stats | some s ↦ apply_stats s c.stats ];
    dedup_ttl = dedup_ttl;
    forward_targets = set u.forward_targets c.forward_targets;
    auth = auth;
    request_log = set u.request_log c.request_log;
    storage = storage;
    serial = serial;
    netconsole = netconsole;
  })
