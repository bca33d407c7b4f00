-- ===== src/Config/Accepted.antt =====
-- internal/config against the bridges: what cmd/gomeshcomd/main.go makes of a configuration.
use gomeshcom_client.Prelude.{
  ℕ, ◌≡◌, ℤ, pos, negsuc, Bool, true, false, [], none, arith, ◌⊎◌, inl, inr,
}
use gomeshcom_client.Text.{text_eq}
use gomeshcom_client.Config.{Config, Serial, NetConsole, normalize, transport_serial}
use gomeshcom_client.Config.Check.{
  Resolver, one_of, validate, validate_normal, validate_transport, validate_serial_transport,
  validate_console_settings, validate_netconsole_transport,
}
use gomeshcom_client.SerialBridge.Port.{library_parity, library_stop_bits, library_mode}
use gomeshcom_client.SerialBridge.Link
use gomeshcom_client.Netconsole.Bridge

-- A duration, or a number, that is not negative.
abbrev pub nat : ℤ → ℕ
nat (pos n) = n
nat (negsuc n) = 0

-- `serialbridge.Config{...}` in main.go.
unfoldable pub serial_config : Serial → Link.Config
serial_config s = record {
  port = record {
    device = s.device;
    baud = nat s.baud;
    data_bits = nat s.data_bits;
    parity = s.parity;
    stop_bits = nat s.stop_bits;
    dtr = s.dtr;
    rts = s.rts;
    read_timeout = nat s.read_timeout;
  };
  reconnect_initial = nat s.reconnect_initial;
  reconnect_max = nat s.reconnect_max;
  stable_reset_after = nat s.stable_reset_after;
  max_record_bytes = nat s.max_record_bytes;
}

-- `netconsole.Config{...}` in main.go.
unfoldable pub netconsole_config : NetConsole → Bridge.Config
netconsole_config n = record {
  address = n.address;
  password = n.password;
  connect_timeout = nat n.connect_timeout;
  auth_timeout = nat n.auth_timeout;
  write_timeout = nat n.write_timeout;
  reconnect_initial = nat n.reconnect_initial;
  reconnect_max = nat n.reconnect_max;
  stable_reset_after = nat n.stable_reset_after;
  max_auth_line_bytes = nat n.max_auth_line_bytes;
  max_record_bytes = nat n.max_record_bytes;
}

abbrev pub is_inl {ℓ κ} : {A : Type ℓ} {B : Type κ} → A ⊎ B → Bool
is_inl (inl a) = true
is_inl (inr b) = false

-- The fields of a serial configuration that pass the checks are ones that NewBridge accepts, and that
-- have a mode of the library of ports.
checked_serial :
    (s : Serial)
    → validate_serial_transport s ≡ none
    → (is_inl (Link.new_bridge true (serial_config s)) ≡ true)
      × (is_inl (library_mode (serial_config s).port) ≡ true)
unfolding validate_serial_transport serial_config library_mode library_parity library_stop_bits
    one_of Link.new_bridge
checked_serial s h = ground arith

-- A NETConsole configuration that Validate accepts is one that NewBridge accepts, where
-- SplitHostPort finds no port in an empty address.
pub validate_netconsole-new_bridge :
    (r : Resolver) (n : NetConsole)
    → r.split_host_port [] ≡ none
    → validate_netconsole_transport r n ≡ none
    → is_inl (Bridge.new_bridge true (netconsole_config n)) ≡ true
unfolding validate_netconsole_transport validate_console_settings netconsole_config
    Bridge.new_bridge Bridge.validate_bridge_config
validate_netconsole-new_bridge r n e h = ground arith

-- A configuration that Validate accepts, if it has the mode serial once it is in its canonical form: in
-- that form, which is the one that the program goes on with, NewBridge accepts the serial section, and
-- the section has a mode of the library of ports.
pub validate-new_bridge :
    (r : Resolver) (c : Config)
    → validate r c ≡ none
    → (normalize c).transport_mode ≡ transport_serial
    → (is_inl (Link.new_bridge true (serial_config (normalize c).serial)) ≡ true)
      × (is_inl (library_mode (serial_config (normalize c).serial).port) ≡ true)
unfolding validate validate_normal validate_transport text_eq
validate-new_bridge r c v m = checked_serial (normalize c).serial (ground (arith, v, m))
