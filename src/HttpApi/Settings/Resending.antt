-- ===== src/HttpApi/Settings/Resending.antt =====
-- internal/httpapi/configapi.go: the request that sends back what `getConfig` answers.
use gomeshcom_client.Prelude.{some}
use gomeshcom_client.HttpApi.Settings.Request.{
  UpdateReceiveLog, UpdateStats, UpdateChatLog, UpdateAuth, UpdateStorage, UpdateSerial,
  UpdateNetConsole, UpdateRequest,
}
use gomeshcom_client.HttpApi.Settings.Shown.{
  ConfigResponse, ReceiveLogResponse, StatsResponse, ChatLogResponse, AuthResponse, StorageResponse,
  SerialResponse, NetConsoleResponse,
}

unfoldable pub resent_receive_log : ReceiveLogResponse → UpdateReceiveLog
resent_receive_log r = record {
  enabled = some r.enabled.value;
  replay_window = some r.replay_window.value;
}

unfoldable pub resent_stats : StatsResponse → UpdateStats
resent_stats r = record {
  enabled = some r.enabled.value;
  retention_days = some r.retention_days.value;
}

unfoldable pub resent_chat_log : ChatLogResponse → UpdateChatLog
resent_chat_log r = record {
  history_window = some r.history_window.value;
  max_history_window = some r.max_history_window.value;
}

unfoldable pub resent_auth : AuthResponse → UpdateAuth
resent_auth r = record {
  username = some r.username.value;
  password = some r.password.value;
  session_ttl = some r.session_ttl.value;
  cookie_name = some r.cookie_name.value;
}

unfoldable pub resent_storage : StorageResponse → UpdateStorage
resent_storage r = record {
  sqlite_path = some r.sqlite_path.value;
  purge_interval = some r.purge_interval.value;
  receive_log_retention = some r.receive_log_retention.value;
  public_chat_retention = some r.public_chat_retention.value;
  nodes_retention = some r.nodes_retention.value;
  telemetry_retention = some r.telemetry_retention.value;
}

unfoldable pub resent_serial : SerialResponse → UpdateSerial
resent_serial r = record {
  device = some r.device.value;
  baud = some r.baud.value;
  data_bits = some r.data_bits.value;
  parity = some r.parity.value;
  stop_bits = some r.stop_bits.value;
  flow_control = some r.flow_control.value;
  dtr = some r.dtr.value;
  rts = some r.rts.value;
  read_timeout = some r.read_timeout.value;
  reconnect_initial = some r.reconnect_initial.value;
  reconnect_max = some r.reconnect_max.value;
  stable_reset_after = some r.stable_reset_after.value;
  max_record_bytes = some r.max_record_bytes.value;
}

unfoldable pub resent_netconsole : NetConsoleResponse → UpdateNetConsole
resent_netconsole r = record {
  address = some r.address.value;
  password = some r.password.value;
  connect_timeout = some r.connect_timeout.value;
  auth_timeout = some r.auth_timeout.value;
  write_timeout = some r.write_timeout.value;
  reconnect_initial = some r.reconnect_initial.value;
  reconnect_max = some r.reconnect_max.value;
  stable_reset_after = some r.stable_reset_after.value;
  max_auth_line_bytes = some r.max_auth_line_bytes.value;
  max_record_bytes = some r.max_record_bytes.value;
}

-- The request that sets every field to the value of an answer.
unfoldable pub resent : ConfigResponse → UpdateRequest
resent r = record {
  http_addr = some r.http_addr.value;
  transport_mode = some r.transport_mode.value;
  udp_listen_addr = some r.udp_listen_addr.value;
  node_addr = some r.node_addr.value;
  my_call = some r.my_call.value;
  max_message_length = some r.max_message_length.value;
  log_level = some r.log_level.value;
  receive_log = some (resent_receive_log r.receive_log);
  stats = some (resent_stats r.stats);
  chat_log = some (resent_chat_log r.chat_log);
  auth = some (resent_auth r.auth);
  storage = some (resent_storage r.storage);
  serial = some (resent_serial r.serial);
  netconsole = some (resent_netconsole r.netconsole);
  dedup_ttl = some r.dedup_ttl.value;
  forward_targets = some r.forward_targets.value;
  request_log = some r.request_log.value;
}
