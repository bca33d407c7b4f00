-- ===== src/HttpApi/Settings/Request.antt =====
-- internal/httpapi/configapi.go: the request of `updateConfig`, `none` where a field is absent. Send,
-- Forward and RequestLog have one field each, which stands in the request itself.
use gomeshcom_client.Prelude.{ℤ, Bool, Option}
use gomeshcom_client.Text.{Text}

pub record UpdateReceiveLog : Type 0 where
  pub enabled : Option Bool
  pub replay_window : Option Text

pub record UpdateStats : Type 0 where
  pub enabled : Option Bool
  pub retention_days : Option ℤ

pub record UpdateChatLog : Type 0 where
  pub history_window : Option Text
  pub max_history_window : Option Text

pub record UpdateAuth : Type 0 where
  pub username : Option Text
  pub password : Option Text
  pub session_ttl : Option Text
  pub cookie_name : Option Text

pub record UpdateStorage : Type 0 where
  pub sqlite_path : Option Text
  pub purge_interval : Option Text
  pub receive_log_retention : Option Text
  pub public_chat_retention : Option Text
  pub nodes_retention : Option Text
  pub telemetry_retention : Option Text

pub record UpdateSerial : Type 0 where
  pub device : Option Text
  pub baud : Option ℤ
  pub data_bits : Option ℤ
  pub parity : Option Text
  pub stop_bits : Option ℤ
  pub flow_control : Option Text
  pub dtr : Option Bool
  pub rts : Option Bool
  pub read_timeout : Option Text
  pub reconnect_initial : Option Text
  pub reconnect_max : Option Text
  pub stable_reset_after : Option Text
  pub max_record_bytes : Option ℤ

pub record UpdateNetConsole : Type 0 where
  pub address : Option Text
  pub password : Option Text
  pub connect_timeout : Option Text
  pub auth_timeout : Option Text
  pub write_timeout : Option Text
  pub reconnect_initial : Option Text
  pub reconnect_max : Option Text
  pub stable_reset_after : Option Text
  pub max_auth_line_bytes : Option ℤ
  pub max_record_bytes : Option ℤ

pub record UpdateRequest : Type 0 where
  pub http_addr : Option Text
  pub transport_mode : Option Text
  pub udp_listen_addr : Option Text
  pub node_addr : Option Text
  pub my_call : Option Text
  pub max_message_length : Option ℤ
  pub log_level : Option Text
  pub receive_log : Option UpdateReceiveLog
  pub stats : Option UpdateStats
  pub chat_log : Option UpdateChatLog
  pub auth : Option UpdateAuth
  pub storage : Option UpdateStorage
  pub serial : Option UpdateSerial
  pub netconsole : Option UpdateNetConsole
  pub dedup_ttl : Option Text
  pub forward_targets : Option Text
  pub request_log : Option Bool
