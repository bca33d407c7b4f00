-- ===== src/HttpApi/Settings/Restarts.antt =====
-- internal/httpapi/configapi.go: the restarts that `updateConfig` asks for, against the marks of
-- `getConfig`.
use gomeshcom_client.Prelude.{
  ℤ, Bool, true, false, ◌&&◌, ◌||◌, [], ◌∷◌, Option, none, some, ◌≡◌, refl,
}
use gomeshcom_client.Text.{Text}
use gomeshcom_client.Config.{Config, ReceiveLog, Stats, ChatLog, Auth, Storage}
use gomeshcom_client.Config.Toml.{EnvOverrides}
use gomeshcom_client.HttpApi.Settings.Request.{
  UpdateRequest, UpdateReceiveLog, UpdateStats, UpdateChatLog, UpdateAuth, UpdateStorage,
}
use gomeshcom_client.HttpApi.Settings.Apply.{is_some, new_password}
use gomeshcom_client.HttpApi.Settings.Locks.{any_of, in_section, requires_restart}
use gomeshcom_client.HttpApi.Settings.Shown.{
  FieldMeta, ConfigResponse, ReceiveLogResponse, StatsResponse, ChatLogResponse, AuthResponse,
  StorageResponse, field, duration_field, receive_log_response, stats_response, chat_log_response,
  auth_response, storage_response, build_config_response,
}

-- A field that a request sets, and that an answer marks as one that needs a restart.
abbrev pub flagged {ℓ κ} : {A : Type ℓ} {B : Type κ} → Option A → FieldMeta B → Bool
flagged u r = is_some u && r.requires_restart

abbrev pub receive_log_flagged : ReceiveLogResponse → UpdateReceiveLog → Bool
receive_log_flagged r u =
    any_of (flagged u.enabled r.enabled ∷ flagged u.replay_window r.replay_window ∷ [])

abbrev pub stats_flagged : StatsResponse → UpdateStats → Bool
stats_flagged r u =
    any_of (flagged u.enabled r.enabled ∷ flagged u.retention_days r.retention_days ∷ [])

abbrev pub chat_log_flagged : ChatLogResponse → UpdateChatLog → Bool
chat_log_flagged r u = any_of (
    flagged u.history_window r.history_window
    ∷ flagged u.max_history_window r.max_history_window
    ∷ [])

abbrev pub auth_flagged : AuthResponse → UpdateAuth → Bool
auth_flagged r u = any_of (
    flagged u.username r.username
    ∷ flagged (new_password u.password) r.password
    ∷ flagged u.session_ttl r.session_ttl
    ∷ flagged u.cookie_name r.cookie_name
    ∷ [])

abbrev pub storage_flagged : StorageResponse → UpdateStorage → Bool
storage_flagged r u = any_of (
    flagged u.sqlite_path r.sqlite_path
    ∷ flagged u.purge_interval r.purge_interval
    ∷ flagged u.receive_log_retention r.receive_log_retention
    ∷ flagged u.public_chat_retention r.public_chat_retention
    ∷ flagged u.nodes_retention r.nodes_retention
    ∷ flagged u.telemetry_retention r.telemetry_retention
    ∷ [])

-- Whether a request sets a field that an answer marks, or has a section of a bridge.
abbrev pub asks_for_restart : ConfigResponse → UpdateRequest → Bool
asks_for_restart r u = any_of (
    flagged u.http_addr r.http_addr
    ∷ flagged u.transport_mode r.transport_mode
    ∷ flagged u.udp_listen_addr r.udp_listen_addr
    ∷ flagged u.node_addr r.node_addr
    ∷ flagged u.my_call r.my_call
    ∷ flagged u.max_message_length r.max_message_length
    ∷ flagged u.log_level r.log_level
    ∷ in_section (receive_log_flagged r.receive_log) u.receive_log
    ∷ in_section (stats_flagged r.stats) u.stats
    ∷ in_section (chat_log_flagged r.chat_log) u.chat_log
    ∷ flagged u.dedup_ttl r.dedup_ttl
    ∷ flagged u.forward_targets r.forward_targets
    ∷ in_section (auth_flagged r.auth) u.auth
    ∷ flagged u.request_log r.request_log
    ∷ in_section (storage_flagged r.storage) u.storage
    ∷ is_some u.serial
    ∷ is_some u.netconsole
    ∷ [])

and_true : (b : Bool) → (b && true) ≡ b
and_true true = refl
and_true false = refl

and_false : (b : Bool) → (b && false) ≡ false
and_false true = refl
and_false false = refl

or_false : (b : Bool) → (b || false) ≡ b
or_false true = refl
or_false false = refl

module _ (show : ℤ → Text) (env : EnvOverrides) where
  receive_log_restart :
      (c : ReceiveLog) (o : Option UpdateReceiveLog)
      → in_section (receive_log_flagged (receive_log_response show env c)) o
        ≡ in_section (λ l. is_some l.enabled || is_some l.replay_window) o
  unfolding receive_log_response field duration_field
  receive_log_restart c none = refl
  receive_log_restart c (some l) = simp (and_true, or_false) refl

  stats_restart :
      (c : Stats) (o : Option UpdateStats)
      → in_section (stats_flagged (stats_response show env c)) o
        ≡ in_section (λ s. is_some s.enabled || is_some s.retention_days) o
  unfolding stats_response field duration_field
  stats_restart c none = refl
  stats_restart c (some s) = simp (and_true, or_false) refl

  auth_restart :
      (c : Auth) (o : Option UpdateAuth)
      → in_section (auth_flagged (auth_response show env c)) o
        ≡ in_section
            (λ a. any_of (
              is_some a.username
              ∷ is_some (new_password a.password)
              ∷ is_some a.session_ttl
              ∷ is_some a.cookie_name
              ∷ []))
            o
  unfolding auth_response field duration_field
  auth_restart c none = refl
  auth_restart c (some a) = simp (and_true, or_false) refl

  storage_restart :
      (c : Storage) (o : Option UpdateStorage)
      → in_section (storage_flagged (storage_response show env c)) o
        ≡ in_section
            (λ s. any_of (
              is_some s.sqlite_path
              ∷ is_some s.purge_interval
              ∷ is_some s.receive_log_retention
              ∷ is_some s.public_chat_retention
              ∷ is_some s.nodes_retention
              ∷ is_some s.telemetry_retention
              ∷ []))
            o
  unfolding storage_response field duration_field
  storage_restart c none = refl
  storage_restart c (some s) = simp (and_true, or_false) refl

  chat_log_restart :
      (c : ChatLog) (o : Option UpdateChatLog)
      → in_section (chat_log_flagged (chat_log_response show env c)) o ≡ false
  unfolding chat_log_response field duration_field
  chat_log_restart c none = refl
  chat_log_restart c (some l) = simp (and_false) refl

-- A request that is carried out asks for a restart exactly if it sets a field that getConfig marks as
-- one that needs a restart, where a password counts if it is a new one, or if it has one of the sections
-- of the bridges, be it empty.
pub requires_restart-shown :
    (show : ℤ → Text) (c : Config) (env : EnvOverrides) (u : UpdateRequest)
    → requires_restart u ≡ asks_for_restart (build_config_response show c env) u
unfolding requires_restart build_config_response field duration_field
requires_restart-shown show c env u =
    simp
      (
        and_true,
        and_false,
        receive_log_restart show env c.receive_log u.receive_log,
        stats_restart show env c.stats u.stats,
        chat_log_restart show env c.chat_log u.chat_log,
        auth_restart show env c.auth u.auth,
        storage_restart show env c.storage u.storage,
      )
      refl
