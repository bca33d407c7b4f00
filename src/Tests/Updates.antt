-- ===== src/Tests/Updates.antt =====
-- internal/httpapi/configapi.go at concrete requests.
use gomeshcom_client.Prelude.{◌≡◌, ◌∷◌, refl, ℤ, pos, negsuc, true, false, [], Option, none, some}
use gomeshcom_client.Text.{Text, codes, text_eq, trim_left, trim_right, trim_space}
use gomeshcom_client.Station.{new_identity}
use gomeshcom_client.Config.{
  Config, built_in_default_config, normalize, normalize_storage, lower_trimmed,
}
use gomeshcom_client.Config.Check.{Resolver, one_of}
use gomeshcom_client.Config.Durations.{has_suffix}
use gomeshcom_client.Config.Toml.{build_toml_content}
use gomeshcom_client.HttpApi.Settings.Request.{UpdateRequest}
use gomeshcom_client.HttpApi.Settings.Apply.{ok, apply_request}
use gomeshcom_client.HttpApi.Settings.Locks.{requires_restart}
use gomeshcom_client.HttpApi.Settings.Shown.{build_config_response}
use gomeshcom_client.HttpApi.Settings.Update.{Server, update_config}
use gomeshcom_client.HttpApi.Settings.Kept.{IsKept, update_config-IsKept}
use gomeshcom_client.HttpApi.Settings.Restarts.{asks_for_restart, requires_restart-shown}
use gomeshcom_client.HttpApi.Settings.Resending.{resent}
use gomeshcom_client.HttpApi.Settings.Sections.{IsReadBack}
use gomeshcom_client.HttpApi.Settings.Resent.{AreDurationsReadBack, apply_request-resent}

-- A duration is its number of nanoseconds and a unit here.
abbrev nanoseconds : ℤ → Text
nanoseconds (pos n) = n ∷ codes "ns"
nanoseconds (negsuc n) = []

abbrev read_nanoseconds : Text → Option ℤ
read_nanoseconds [] = none
read_nanoseconds (n ∷ unit) = some (pos n)

read_back :
    (d : ℤ)
    → read_nanoseconds (nanoseconds d) ≡ some d
    → trim_space (nanoseconds d) ≡ nanoseconds d
    → has_suffix (codes "d") (nanoseconds d) ≡ false
    → IsReadBack read_nanoseconds nanoseconds d
read_back d r t e = record { read = r; trimmed = t; ending = e }

updates : Unit {0}
unfolding has_suffix trim_space trim_left trim_right text_eq built_in_default_config normalize
    normalize_storage lower_trimmed one_of
updates = tt

default_read_back : AreDurationsReadBack read_nanoseconds nanoseconds built_in_default_config
unfolding updates
default_read_back = record {
  receive_log = (read_back _ refl refl refl, tt);
  chat_log = (read_back _ refl refl refl, (read_back _ refl refl refl, tt));
  dedup_ttl = read_back _ refl refl refl;
  auth = (read_back _ refl refl refl, tt);
  storage = (
    read_back _ refl refl refl,
    (
      read_back _ refl refl refl,
      (read_back _ refl refl refl, (read_back _ refl refl refl, (read_back _ refl refl refl, tt))),
    ),
  );
  serial = (
    read_back _ refl refl refl,
    (read_back _ refl refl refl, (read_back _ refl refl refl, (read_back _ refl refl refl, tt))),
  );
  netconsole = (
    read_back _ refl refl refl,
    (
      read_back _ refl refl refl,
      (
        read_back _ refl refl refl,
        (
          read_back _ refl refl refl,
          (read_back _ refl refl refl, (read_back _ refl refl refl, tt)),
        ),
      ),
    ),
  );
}

apply_request-resent_example :
    apply_request read_nanoseconds
      (resent (build_config_response nanoseconds built_in_default_config (λ v. false)))
      built_in_default_config
    ≡ ok built_in_default_config
apply_request-resent_example =
    apply_request-resent read_nanoseconds nanoseconds (λ v. false) built_in_default_config
      default_read_back

-- Every address is found.
abbrev resolver : Resolver
resolver = record { tcp = λ addr. true; udp = λ addr. true; split_host_port = λ addr. none }

abbrev server : Server
server = record {
  config = built_in_default_config;
  env = λ v. false;
  file = some (build_toml_content built_in_default_config);
  identity = some (new_identity none (codes "QQ0XX-1"));
  events = some [];
}

-- A new callsign.
abbrev request : UpdateRequest
request = record {
  http_addr = none;
  transport_mode = none;
  udp_listen_addr = none;
  node_addr = none;
  my_call = some (codes "oe1abc-7");
  max_message_length = none;
  log_level = none;
  receive_log = none;
  stats = none;
  chat_log = none;
  auth = none;
  storage = none;
  serial = none;
  netconsole = none;
  dedup_ttl = some (nanoseconds (pos 70));
  forward_targets = none;
  request_log = none;
}

abbrev renamed : Config
renamed = record built_in_default_config { my_call = codes "oe1abc-7"; dedup_ttl = pos 70 }

update_config-IsKept_example :
    IsKept resolver true server (update_config resolver read_nanoseconds true true request server)
update_config-IsKept_example =
    update_config-IsKept resolver read_nanoseconds true true request server

requires_restart-shown_example :
    requires_restart request
    ≡ asks_for_restart
        (build_config_response nanoseconds built_in_default_config (λ v. false))
        request
requires_restart-shown_example =
    requires_restart-shown nanoseconds built_in_default_config (λ v. false) request
