-- ===== src/HttpApi/Settings/Locks.antt =====
-- internal/httpapi/configapi.go: the fields of a request that are managed by the environment, and those
-- that need a restart.
use gomeshcom_client.Prelude.{
  Bool, false, ◌&&◌, ◌||◌, List, [], ◌∷◌, ◌++◌, Option, none, some, if◌then◌else◌,
}
use gomeshcom_client.Text.{Text, codes}
use gomeshcom_client.Config.Toml.{EnvOverrides}
use gomeshcom_client.HttpApi.Settings.Request.{
  UpdateReceiveLog, UpdateStats, UpdateChatLog, UpdateAuth, UpdateStorage, UpdateSerial,
  UpdateNetConsole, UpdateRequest,
}
use gomeshcom_client.HttpApi.Settings.Apply.{is_some, new_password, new_console_password}

-- A check of `checkEnvLocked`: whether the field is present, and the variable.
abbrev pub Check : Type 0
Check = Bool × Text

unfoldable pub receive_log_checks : UpdateReceiveLog → List Check
receive_log_checks u =
    (is_some u.enabled, codes "RECEIVE_LOG_ENABLED")
    ∷ (is_some u.replay_window, codes "RECEIVE_LOG_REPLAY_WINDOW")
    ∷ []

unfoldable pub stats_checks : UpdateStats → List Check
stats_checks u =
    (is_some u.enabled, codes "STATS_ENABLED")
    ∷ (is_some u.retention_days, codes "STATS_RETENTION_DAYS")
    ∷ []

unfoldable pub chat_log_checks : UpdateChatLog → List Check
chat_log_checks u =
    (is_some u.history_window, codes "CHAT_LOG_HISTORY_WINDOW")
    ∷ (is_some u.max_history_window, codes "CHAT_LOG_MAX_HISTORY_WINDOW")
    ∷ []

unfoldable pub auth_checks : UpdateAuth → List Check
auth_checks u =
    (is_some u.username, codes "AUTH_USERNAME")
    ∷ (is_some (new_password u.password), codes "AUTH_PASSWORD")
    ∷ (is_some u.session_ttl, codes "AUTH_SESSION_TTL")
    ∷ (is_some u.cookie_name, codes "AUTH_COOKIE_NAME")
    ∷ []

unfoldable pub storage_checks : UpdateStorage → List Check
storage_checks u =
    (is_some u.sqlite_path, codes "STORAGE_SQLITE_PATH")
    ∷ (is_some u.purge_interval, codes "STORAGE_PURGE_INTERVAL")
    ∷ (is_some u.receive_log_retention, codes "STORAGE_RECEIVE_LOG_RETENTION")
    ∷ (is_some u.public_chat_retention, codes "STORAGE_PUBLIC_CHAT_RETENTION")
    ∷ (is_some u.nodes_retention, codes "STORAGE_NODES_RETENTION")
    ∷ (is_some u.telemetry_retention, codes "STORAGE_TELEMETRY_RETENTION")
    ∷ []

unfoldable pub serial_checks : UpdateSerial → List Check
serial_checks u =
    (is_some u.device, codes "SERIAL_DEVICE")
    ∷ (is_some u.baud, codes "SERIAL_BAUD")
    ∷ (is_some u.data_bits, codes "SERIAL_DATA_BITS")
    ∷ (is_some u.parity, codes "SERIAL_PARITY")
    ∷ (is_some u.stop_bits, codes "SERIAL_STOP_BITS")
    ∷ (is_some u.flow_control, codes "SERIAL_FLOW_CONTROL")
    ∷ (is_some u.dtr, codes "SERIAL_DTR")
    ∷ (is_some u.rts, codes "SERIAL_RTS")
    ∷ (is_some u.read_timeout, codes "SERIAL_READ_TIMEOUT")
    ∷ (is_some u.reconnect_initial, codes "SERIAL_RECONNECT_INITIAL")
    ∷ (is_some u.reconnect_max, codes "SERIAL_RECONNECT_MAX")
    ∷ (is_some u.stable_reset_after, codes "SERIAL_STABLE_RESET_AFTER")
    ∷ (is_some u.max_record_bytes, codes "SERIAL_MAX_RECORD_BYTES")
    ∷ []

unfoldable pub netconsole_checks : UpdateNetConsole → List Check
netconsole_checks u =
    (is_some u.address, codes "NETCONSOLE_ADDRESS")
    ∷ (is_some (new_console_password u.password), codes "NETCONSOLE_PASSWORD")
    ∷ (is_some u.connect_timeout, codes "NETCONSOLE_CONNECT_TIMEOUT")
    ∷ (is_some u.auth_timeout, codes "NETCONSOLE_AUTH_TIMEOUT")
    ∷ (is_some u.write_timeout, codes "NETCONSOLE_WRITE_TIMEOUT")
    ∷ (is_some u.reconnect_initial, codes "NETCONSOLE_RECONNECT_INITIAL")
    ∷ (is_some u.reconnect_max, codes "NETCONSOLE_RECONNECT_MAX")
    ∷ (is_some u.stable_reset_after, codes "NETCONSOLE_STABLE_RESET_AFTER")
    ∷ (is_some u.max_auth_line_bytes, codes "NETCONSOLE_MAX_AUTH_LINE_BYTES")
    ∷ (is_some u.max_record_bytes, codes "NETCONSOLE_MAX_RECORD_BYTES")
    ∷ []

abbrev pub section_checks {ℓ} : {U : Type ℓ} → (U → List Check) → Option U → List Check
section_checks checks none = []
section_checks checks (some u) = checks u

unfoldable pub request_checks : UpdateRequest → List Check
request_checks u =
    ((is_some u.http_addr, codes "HTTP_ADDR")
      ∷ (is_some u.transport_mode, codes "TRANSPORT_MODE")
      ∷ (is_some u.udp_listen_addr, codes "UDP_LISTEN_ADDR")
      ∷ (is_some u.node_addr, codes "NODE_ADDR")
      ∷ (is_some u.my_call, codes "MY_CALL")
      ∷ (is_some u.max_message_length, codes "MAX_MESSAGE_LENGTH")
      ∷ (is_some u.log_level, codes "LOG_LEVEL")
      ∷ [])
    ++ (section_checks receive_log_checks u.receive_log
        ++ (section_checks stats_checks u.stats
            ++ (section_checks chat_log_checks u.chat_log
                ++ ((is_some u.dedup_ttl, codes "SEND_DEDUP_TTL")
                    ∷ (is_some u.forward_targets, codes "FORWARD_TARGETS")
                    ∷ (section_checks auth_checks u.auth
                        ++ ((is_some u.request_log, codes "REQUEST_LOG_ENABLED")
                            ∷ (section_checks storage_checks u.storage
                                ++ (section_checks serial_checks u.serial
                                    ++ section_checks netconsole_checks u.netconsole))))))))

-- The loop of `checkEnvLocked`: the first field that is managed by the environment.
unfoldable pub first_locked : EnvOverrides → List Check → Option Text
first_locked env [] = none
first_locked env ((present, suffix) ∷ checks) =
    let rest = first_locked env checks in if present && env suffix then some suffix else rest

unfoldable pub check_env_locked : UpdateRequest → EnvOverrides → Option Text
check_env_locked u env = first_locked env (request_checks u)

abbrev pub any_of : List Bool → Bool
any_of [] = false
any_of (b ∷ bs) = b || any_of bs

abbrev pub in_section {ℓ} : {U : Type ℓ} → (U → Bool) → Option U → Bool
in_section test none = false
in_section test (some u) = test u

-- `requiresRestart` at the end of `updateConfig`, for a request that it carries out.
unfoldable pub requires_restart : UpdateRequest → Bool
requires_restart u = any_of (
    is_some u.http_addr
    ∷ is_some u.transport_mode
    ∷ is_some u.udp_listen_addr
    ∷ is_some u.node_addr
    ∷ is_some u.max_message_length
    ∷ in_section (λ l. is_some l.enabled || is_some l.replay_window) u.receive_log
    ∷ in_section (λ s. is_some s.enabled || is_some s.retention_days) u.stats
    ∷ is_some u.forward_targets
    ∷ in_section
        (λ a. any_of (
          is_some a.username
          ∷ is_some (new_password a.password)
          ∷ is_some a.session_ttl
          ∷ is_some a.cookie_name
          ∷ []))
        u.auth
    ∷ in_section
        (λ s. any_of (
          is_some s.sqlite_path
          ∷ is_some s.purge_interval
          ∷ is_some s.receive_log_retention
          ∷ is_some s.public_chat_retention
          ∷ is_some s.nodes_retention
          ∷ is_some s.telemetry_retention
          ∷ []))
        u.storage
    ∷ is_some u.serial
    ∷ is_some u.netconsole
    ∷ [])
