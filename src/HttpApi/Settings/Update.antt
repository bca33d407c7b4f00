-- ===== src/HttpApi/Settings/Update.antt =====
-- internal/httpapi/configapi.go: `updateConfig`, behind the reading of the request.
use gomeshcom_client.Prelude.{
  ℕ, ℤ, Bool, List, [], ◌∷◌, ◌++◌, Option, none, some, if◌then◌else◌, length,
}
use gomeshcom_client.Text.{Text}
use gomeshcom_client.Station.{Identity, update}
use gomeshcom_client.Saving.{save_if_dirty}
use gomeshcom_client.Config.{Config, normalize}
use gomeshcom_client.Config.Check.{Resolver, validate, parse_forward_targets}
use gomeshcom_client.Config.Toml.{EnvOverrides, TomlFile, build_toml_content}
use gomeshcom_client.HttpApi.Settings.Request.{UpdateRequest}
use gomeshcom_client.HttpApi.Settings.Apply.{
  UpdateError, ok, err, demo_mode, locked, invalid, persist_failed, bad_callsign, is_some,
  apply_request,
}
use gomeshcom_client.HttpApi.Settings.Locks.{check_env_locked, requires_restart}

-- The data of the event station.identity.
pub record IdentityEvent : Type 0 where
  pub callsign : Text
  pub tx_disabled : Bool
  pub forward_target_count : ℕ

-- The server, with its file and the events that it has published. `file` is `none` if the server has
-- no path of a file, `identity` if it has no identity, and `events` if it has no bus.
pub record Server : Type 0 where
  pub config : Config
  pub env : EnvOverrides
  pub file : Option TomlFile
  pub identity : Option Identity
  pub events : Option (List IdentityEvent)

-- The answer: an error, or whether the change needs a restart.
pub data Answer : Type 0 where
  refused : UpdateError → Answer
  updated : (restart : Bool) → Answer

abbrev pub publish : IdentityEvent → Option (List IdentityEvent) → Option (List IdentityEvent)
publish e none = none
publish e (some es) = some (es ++ (e ∷ []))

-- The target count, 0 where the targets cannot be read.
abbrev pub count_targets : Option (List Text) → ℕ
count_targets none = 0
count_targets (some ts) = length ts

-- `config.WriteToml` where there is a path; `writes` tells if the file can be written.
unfoldable pub persist : Bool → Config → Option TomlFile → Option (Option TomlFile)
persist writes c none = some none
persist writes c (some old) = if writes then some (some (build_toml_content c)) else none

module _ (r : Resolver) where
  unfoldable pub identity_event : Text → Config → IdentityEvent
  identity_event callsign c = record {
    callsign = callsign;
    tx_disabled = c.demo_mode;
    forward_target_count = count_targets (parse_forward_targets r c.forward_targets);
  }

  -- The live change of the callsign; `saves` tells if the write of the identity succeeds.
  unfoldable pub apply_callsign : Bool → Bool → Config → Identity → Server → Server × Answer
  apply_callsign restart saves c id s =
      let (id', accepted) = update c.my_call id in
      elim accepted [
        | none ↦ (record s { identity = some id' }, refused bad_callsign)
        | some callsign ↦ (
          record s {
            config = record c { my_call = callsign };
            identity = some (save_if_dirty saves id');
            events = publish (identity_event callsign c) s.events;
          },
          updated restart,
        )
      ]

  -- What follows a file that was written.
  unfoldable pub apply_live : Bool → Bool → Bool → Config → Server → Server × Answer
  apply_live restart changed saves c s =
      if changed
      then elim (s.identity) [
        | none ↦ (record s { config = c }, updated restart)
        | some id ↦ apply_callsign restart saves c id s
      ]
      else (record s { config = c }, updated restart)

  -- From the candidate on.
  unfoldable pub accept : Bool → Bool → Bool → Bool → Config → Server → Server × Answer
  accept restart changed writes saves candidate s =
      let c = normalize candidate in
      elim (validate r c) [
        | some e ↦ (s, refused (invalid e))
        | none ↦ elim (persist writes c s.file) [
          | none ↦ (s, refused persist_failed)
          | some file ↦ apply_live restart changed saves c (record s { file = file })
        ]
      ]

  -- `updateConfig`; `std` is `time.ParseDuration`.
  unfoldable pub update_config :
      (Text → Option ℤ) → Bool → Bool → UpdateRequest → Server → Server × Answer
  update_config std writes saves u s =
      if s.config.demo_mode then (s, refused demo_mode) else elim (check_env_locked u s.env) [
        | some suffix ↦ (s, refused (locked suffix))
        | none ↦ elim (apply_request std u s.config) [
          | err e ↦ (s, refused e)
          | ok candidate ↦ accept (requires_restart u) (is_some u.my_call) writes saves candidate s
        ]
      ]
