-- ===== src/Config/Check.antt =====
-- internal/config/config.go: `Validate`. The resolvers of package net are arguments.
use gomeshcom_client.Prelude.{
  ℕ, ℤ, pos, negsuc, is_positive, is_negative, exceeds, Bool, true, false, not, ◌&&◌, ◌||◌, List,
  [], ◌∷◌, Option, none, some, if◌then◌else◌, ltb, ◌==◌, length, all,
}
use gomeshcom_client.Text.{Text, codes, text_eq, split, trim_space}
use gomeshcom_client.Callsign.{is_valid}
use gomeshcom_client.Stats.Keys.{atoi}
use gomeshcom_client.Config.{
  Config, Serial, NetConsole, Storage, Auth, normalize, transport_udp, transport_serial,
  transport_netconsole,
}

-- Whether `ResolveTCPAddr` and `ResolveUDPAddr` find an address, and what `SplitHostPort` returns.
pub record Resolver : Type 0 where
  pub tcp : Text → Bool
  pub udp : Text → Bool
  pub split_host_port : Text → Option (Text × Text)

-- The errors by what they are about.
pub data ConfigError : Type 0 where
  http_addr udp_listen_addr node_addr transport_mode max_message_length data_dir my_call :
      ConfigError
  replay_window history_window max_history_window dedup_ttl forward_targets log_level : ConfigError
  auth_pair auth_session_ttl auth_cookie_name : ConfigError
  sqlite_path purge_interval receive_log_retention public_chat_retention : ConfigError
  nodes_retention telemetry_retention : ConfigError
  serial_device serial_baud serial_data_bits serial_parity serial_stop_bits : ConfigError
  serial_flow_control serial_read_timeout serial_reconnect_initial serial_reconnect_max :
      ConfigError
  serial_reconnect_order serial_stable_reset serial_max_record : ConfigError
  console_address console_host console_port console_password_length console_password_byte :
      ConfigError
  console_connect_timeout console_auth_timeout console_write_timeout : ConfigError
  console_reconnect_initial console_reconnect_max console_reconnect_order : ConfigError
  console_stable_reset console_auth_line console_max_record : ConfigError

-- `if refused { return error }` before the rest.
abbrev pub refuse : Bool → ConfigError → Option ConfigError → Option ConfigError
refuse refused e rest = if refused then some e else rest

-- One check behind another.
abbrev pub and_then : Option ConfigError → Option ConfigError → Option ConfigError
and_then none rest = rest
and_then (some e) rest = some e

unfoldable pub one_of : Text → List Text → Bool
one_of s [] = false
one_of s (t ∷ ts) = text_eq s t || one_of s ts

-- A number from 1 to the limit.
abbrev pub out_of_range : ℤ → ℕ → Bool
out_of_range n limit = not (is_positive n) || exceeds n (pos limit)

abbrev pub max_record_bytes : ℕ
max_record_bytes = 1048576

abbrev pub is_number : ℕ → ℤ → Bool
is_number k (pos n) = n == k
is_number k (negsuc n) = false

unfoldable pub validate_serial_transport : Serial → Option ConfigError
validate_serial_transport s = refuse (text_eq s.device []) serial_device (
    refuse (not (is_positive s.baud)) serial_baud (
      refuse
        (not (
          is_number 5 s.data_bits
          || (is_number 6 s.data_bits || (is_number 7 s.data_bits || is_number 8 s.data_bits))))
        serial_data_bits
        (refuse
          (not (
            one_of s.parity
              (codes "none" ∷ codes "odd" ∷ codes "even" ∷ codes "mark" ∷ codes "space" ∷ [])))
          serial_parity
          (refuse (not (is_number 1 s.stop_bits || is_number 2 s.stop_bits)) serial_stop_bits (
            refuse (not (text_eq s.flow_control (codes "none"))) serial_flow_control (
              refuse (not (is_positive s.read_timeout)) serial_read_timeout (
                refuse (not (is_positive s.reconnect_initial)) serial_reconnect_initial (
                  refuse (not (is_positive s.reconnect_max)) serial_reconnect_max (
                    refuse (exceeds s.reconnect_initial s.reconnect_max) serial_reconnect_order (
                      refuse (not (is_positive s.stable_reset_after)) serial_stable_reset (
                        refuse (out_of_range s.max_record_bytes max_record_bytes) serial_max_record
                          none)))))))))))

-- The bytes "\x00\r\n".
abbrev pub is_forbidden : ℕ → Bool
is_forbidden c = c == 0 || (c == b'\r' || c == b'\n')

-- A port from 1 to 65535.
unfoldable pub bad_port : Text → Bool
bad_port s = elim (atoi s) [ none ↦ true | some n ↦ out_of_range n 65535 ]

-- `validateNetConsoleTransport` behind the address.
unfoldable pub validate_console_settings : NetConsole → Option ConfigError
validate_console_settings n = refuse (ltb 14 (length n.password)) console_password_length (
    refuse (not (all (λ c. not (is_forbidden c)) n.password)) console_password_byte (
      refuse (not (is_positive n.connect_timeout)) console_connect_timeout (
        refuse (not (is_positive n.auth_timeout)) console_auth_timeout (
          refuse (not (is_positive n.write_timeout)) console_write_timeout (
            refuse (not (is_positive n.reconnect_initial)) console_reconnect_initial (
              refuse (not (is_positive n.reconnect_max)) console_reconnect_max (
                refuse (exceeds n.reconnect_initial n.reconnect_max) console_reconnect_order (
                  refuse (not (is_positive n.stable_reset_after)) console_stable_reset (
                    refuse
                      (exceeds (pos 72) n.max_auth_line_bytes
                        || exceeds n.max_auth_line_bytes (pos 4096))
                      console_auth_line
                      (refuse (out_of_range n.max_record_bytes max_record_bytes) console_max_record
                        none))))))))))

module _ (r : Resolver) where
  unfoldable pub validate_netconsole_transport : NetConsole → Option ConfigError
  validate_netconsole_transport n = elim (r.split_host_port n.address) [
    | none ↦ some console_address
    | some (host, port) ↦
        refuse (text_eq host []) console_host
          (refuse (bad_port port) console_port (validate_console_settings n))
  ]

  unfoldable pub validate_udp_transport : Config → Option ConfigError
  validate_udp_transport c =
      refuse (not (r.udp c.udp_listen_addr)) udp_listen_addr
        (refuse (not (text_eq c.node_addr []) && not (r.udp c.node_addr)) node_addr none)

  -- The loop of `ParseForwardTargets` with `seen`; `none` is an error.
  unfoldable pub parse_targets_onto : List Text → List Text → Option (List Text)
  parse_targets_onto seen [] = some []
  parse_targets_onto seen (raw ∷ more) =
      let t = trim_space raw in
      let skipped = parse_targets_onto seen more in
      let rest = parse_targets_onto (t ∷ seen) more in
      if text_eq t [] || one_of t seen
      then skipped
      else if r.udp t
      then elim rest [ none ↦ none | some ts ↦ some (t ∷ ts) ]
      else none

  unfoldable pub parse_forward_targets : Text → Option (List Text)
  parse_forward_targets csv = parse_targets_onto [] (split b',' csv)

  unfoldable pub bad_targets : Text → Bool
  bad_targets csv =
      if text_eq csv []
      then false
      else elim (parse_forward_targets csv) [ none ↦ true | some ts ↦ false ]

  unfoldable pub validate_transport : Config → Option ConfigError
  validate_transport c =
      if text_eq c.transport_mode transport_udp
      then validate_udp_transport c
      else if text_eq c.transport_mode transport_serial
      then validate_serial_transport c.serial
      else if text_eq c.transport_mode transport_netconsole
      then validate_netconsole_transport c.netconsole
      else some transport_mode

  unfoldable pub validate_auth : Auth → Option ConfigError
  validate_auth a =
      if text_eq a.username [] && text_eq a.password []
      then none
      else refuse (text_eq a.username [] || text_eq a.password []) auth_pair (
          refuse (not (is_positive a.session_ttl)) auth_session_ttl
            (refuse (text_eq a.cookie_name []) auth_cookie_name none))

  unfoldable pub validate_storage : Storage → Option ConfigError
  validate_storage s = refuse (text_eq s.sqlite_path []) sqlite_path (
      refuse (not (is_positive s.purge_interval)) purge_interval (
        refuse (is_negative s.receive_log_retention) receive_log_retention (
          refuse (is_negative s.public_chat_retention) public_chat_retention (
            refuse (is_negative s.nodes_retention) nodes_retention
              (refuse (is_negative s.telemetry_retention) telemetry_retention none)))))

  -- The checks from `MaxMessageLength` to the targets.
  unfoldable pub validate_messages : Config → Option ConfigError
  validate_messages c = refuse (not (is_positive c.max_message_length)) max_message_length (
      refuse (text_eq c.data_dir []) data_dir (
        refuse (not (is_valid c.my_call)) my_call (
          refuse (c.receive_log.enabled && is_negative c.receive_log.replay_window) replay_window (
            refuse (not (is_positive c.chat_log.history_window)) history_window (
              refuse (exceeds c.chat_log.history_window c.chat_log.max_history_window)
                max_history_window
                (refuse (is_negative c.dedup_ttl) dedup_ttl
                  (refuse (bad_targets c.forward_targets) forward_targets none)))))))

  unfoldable pub validate_log_level : Text → Option ConfigError
  validate_log_level level =
      refuse (not (one_of level (codes "debug" ∷ codes "info" ∷ codes "warn" ∷ codes "error" ∷ [])))
        log_level none

  -- `Validate` on a configuration in its canonical form.
  unfoldable pub validate_normal : Config → Option ConfigError
  validate_normal c = refuse (not (r.tcp c.http_addr)) http_addr (
      and_then (validate_transport c) (
        and_then (validate_messages c) (
          and_then (validate_auth c.auth)
            (and_then (validate_log_level c.log_level) (validate_storage c.storage)))))

  unfoldable pub validate : Config → Option ConfigError
  validate c = validate_normal (normalize c)
