-- ===== src/Tests/Settings.antt =====
-- internal/config at the default configuration.
use gomeshcom_client.Prelude.{
  ◌≡◌, ◌≢◌, refl, ℤ, pos, true, false, [], Option, none, some, arith, ◌*◌, ◌++◌,
}
use gomeshcom_client.Text.{
  Text, codes, text_eq, to_lower, lower, to_upper, upper, trim_space, trim_left, trim_right,
}
use gomeshcom_client.Config.{
  Config, Serial, built_in_default_config, normalize, normalize_storage, lower_trimmed,
}
use gomeshcom_client.Config.Check.{
  Resolver, one_of, validate, validate_normal, validate_transport, validate_messages, validate_auth,
  validate_log_level, validate_storage, bad_targets, validate_serial_transport,
}
use gomeshcom_client.Callsign
use gomeshcom_client.Callsign.{is_valid, match_pattern, match_base, match_ssid}
use gomeshcom_client.Config.Toml.{merge_toml, build_toml_content}
use gomeshcom_client.Config.Durations.{hour, parse_duration, format_toml_duration}
use gomeshcom_client.Config.Durations.RoundTrip.{parse_duration-format_toml_duration}
use gomeshcom_client.Config.Strings.{
  toml_str, replace_all, read_basic_string, read_body, read_basic_string-toml_str,
}
use gomeshcom_client.Config.Accepted.{serial_config, is_inl, validate-new_bridge}
use gomeshcom_client.Config.Restored.{no_env, saved_auth_is_refused}
use gomeshcom_client.SerialBridge.Port.{library_mode}
use gomeshcom_client.SerialBridge.Link

settings : Unit {0}
unfolding built_in_default_config normalize normalize_storage lower_trimmed
    validate_serial_transport one_of text_eq
settings = tt

-- Every address is found.
abbrev resolver : Resolver
resolver = record { tcp = λ addr. true; udp = λ addr. true; split_host_port = λ addr. none }

abbrev with_password : Config
with_password = record built_in_default_config {
  auth = record {
    username = codes "op";
    password = codes "secret";
    session_ttl = pos 1;
    cookie_name = codes "c";
  };
}

read_basic_string-toml_str_example :
    read_basic_string (toml_str (codes "a\"b\\c") ++ codes "\n")
    ≡ some (codes "a\"b\\c", codes "\n")
read_basic_string-toml_str_example = read_basic_string-toml_str (codes "a\"b\\c") (codes "\n")

-- A line end in a path makes the file unreadable.
unreadable_path : read_basic_string (toml_str (codes "data\n/x.db")) ≡ none
unfolding read_basic_string read_body toml_str replace_all
unreadable_path = refl

saved_auth_is_refused_example :
    validate resolver
      (merge_toml no_env (some (build_toml_content with_password)) built_in_default_config)
    ≢ none
unfolding settings
saved_auth_is_refused_example =
    saved_auth_is_refused resolver with_password built_in_default_config refl

abbrev port : Serial
port = record {
  device = codes "/dev/ttyUSB0";
  baud = pos 115200;
  data_bits = pos 8;
  parity = codes "EVEN";
  stop_bits = pos 1;
  flow_control = codes "none";
  dtr = false;
  rts = false;
  read_timeout = pos 1000;
  reconnect_initial = pos 1000;
  reconnect_max = pos 30000;
  stable_reset_after = pos 30000;
  max_record_bytes = pos 65536;
}

abbrev serial_mode : Config
serial_mode = record built_in_default_config { transport_mode = codes "Serial"; serial = port }

validate-new_bridge_example :
    (is_inl (Link.new_bridge true (serial_config (normalize serial_mode).serial)) ≡ true)
    × (is_inl (library_mode (serial_config (normalize serial_mode).serial).port) ≡ true)
unfolding settings validate validate_normal validate_transport validate_messages validate_auth
    validate_log_level validate_storage bad_targets is_valid match_pattern match_base match_ssid
    Callsign.normalize to_lower lower to_upper upper trim_space trim_left trim_right
validate-new_bridge_example = validate-new_bridge resolver serial_mode refl refl

-- Everything is 36 hours.
abbrev parse_hours : Text → Option ℤ
parse_hours s = some (pos (36 * hour))

parse_duration-format_toml_duration_example :
    parse_duration parse_hours (format_toml_duration (λ d. []) (pos (36 * hour)))
    ≡ some (pos (36 * hour))
parse_duration-format_toml_duration_example =
    parse_duration-format_toml_duration parse_hours (λ d. []) 36 (omega arith) (omega arith) refl
