-- ===== src/HttpApi/Settings/Sections.antt =====
-- internal/httpapi/configapi.go: sending back the sections that `getConfig` answers.
use gomeshcom_client.Prelude.{
  ℤ, false, [], ◌∷◌, List, Option, some, ◌≡◌, refl, sym, inl, inr, Bool-cases,
}
use gomeshcom_client.Text.{Text, codes, text_eq, trim_space}
use gomeshcom_client.Text.Search.{text_eq_iff}
use gomeshcom_client.Config.{Serial, NetConsole, ReceiveLog, ChatLog, Auth, Storage}
use gomeshcom_client.Config.Durations.{has_suffix, parse_trimmed, parse_duration}
use gomeshcom_client.Config.Toml.{EnvOverrides}
use gomeshcom_client.HttpApi.Settings.Apply.{
  ok, set, set_duration, new_password, new_console_password, apply_receive_log, apply_chat_log,
  apply_auth, apply_storage, apply_serial, apply_netconsole,
}
use gomeshcom_client.HttpApi.Settings.Shown.{
  field, duration_field, password_display, receive_log_response, chat_log_response, auth_response,
  storage_response, serial_response, netconsole_response,
}
use gomeshcom_client.HttpApi.Settings.Resending.{
  resent_receive_log, resent_chat_log, resent_auth, resent_storage, resent_serial,
  resent_netconsole,
}

module _ (std : Text → Option ℤ) (show : ℤ → Text) where
  -- What `time.ParseDuration` and `Duration.String` do with a duration: its text has no spaces around
  -- it, does not end in a letter d, and is read as the duration.
  pub record IsReadBack (d : ℤ) : Type 0 where
    pub read : std (show d) ≡ some d
    pub trimmed : trim_space (show d) ≡ show d
    pub ending : has_suffix (codes "d") (show d) ≡ false

  abbrev pub AreReadBack : List ℤ → Type 0
  AreReadBack [] = Unit
  AreReadBack (d ∷ ds) = IsReadBack d × AreReadBack ds

  pub set_duration-std :
      (name : Text) (d old : ℤ) → IsReadBack d → set_duration std name (some (show d)) old ≡ ok d
  unfolding set_duration
  set_duration-std name d old k = rw (k.read) refl

  pub set_duration-config :
      (name : Text) (d old : ℤ)
      → IsReadBack d
      → set_duration (parse_duration std) name (some (show d)) old ≡ ok d
  unfolding set_duration parse_duration parse_trimmed
  set_duration-config name d old k = rw (k.trimmed, k.ending, k.read) refl

  -- The password of an answer changes nothing.
  pub new_password-display : (p : Text) → set (new_password (some (password_display p))) p ≡ p
  unfolding new_password password_display text_eq
  new_password-display p = elim (Bool-cases (text_eq p [])) [
    | inl e ↦ rw e refl
    | inr e ↦ rw e refl
  ]

  pub new_console_password-display :
      (p : Text) → set (new_console_password (some (password_display p))) p ≡ p
  unfolding new_console_password password_display text_eq
  new_console_password-display p = elim (Bool-cases (text_eq p [])) [
    | inl e ↦ rw e (sym ((text_eq_iff p []).0 e))
    | inr e ↦ rw e refl
  ]

  abbrev pub receive_log_durations : ReceiveLog → List ℤ
  receive_log_durations c = c.replay_window ∷ []

  pub apply_receive_log-resent :
      (env : EnvOverrides) (c : ReceiveLog)
      → AreReadBack (receive_log_durations c)
      → apply_receive_log std (resent_receive_log (receive_log_response show env c)) c ≡ ok c
  unfolding apply_receive_log resent_receive_log receive_log_response field duration_field
  apply_receive_log-resent env c k =
      rw (set_duration-std (codes "receive_log.replay_window") c.replay_window c.replay_window k.0)
        refl

  abbrev pub chat_log_durations : ChatLog → List ℤ
  chat_log_durations c = c.history_window ∷ c.max_history_window ∷ []

  pub apply_chat_log-resent :
      (env : EnvOverrides) (c : ChatLog)
      → AreReadBack (chat_log_durations c)
      → apply_chat_log std (resent_chat_log (chat_log_response show env c)) c ≡ ok c
  unfolding apply_chat_log resent_chat_log chat_log_response field duration_field
  apply_chat_log-resent env c k =
      rw
        (
          set_duration-std (codes "chat_log.history_window") c.history_window c.history_window k.0,
          set_duration-std (codes "chat_log.max_history_window") c.max_history_window
              c.max_history_window k.1.0,
        )
        refl

  abbrev pub auth_durations : Auth → List ℤ
  auth_durations c = c.session_ttl ∷ []

  pub apply_auth-resent :
      (env : EnvOverrides) (c : Auth)
      → AreReadBack (auth_durations c)
      → apply_auth std (resent_auth (auth_response show env c)) c ≡ ok c
  unfolding apply_auth resent_auth auth_response field duration_field
  apply_auth-resent env c k =
      rw
        (
          set_duration-std (codes "auth.session_ttl") c.session_ttl c.session_ttl k.0,
          new_password-display c.password,
        )
        refl

  abbrev pub storage_durations : Storage → List ℤ
  storage_durations c =
      c.purge_interval ∷ c.receive_log_retention ∷ c.public_chat_retention ∷ c.nodes_retention
      ∷ c.telemetry_retention ∷ []

  pub apply_storage-resent :
      (env : EnvOverrides) (c : Storage)
      → AreReadBack (storage_durations c)
      → apply_storage (parse_duration std) (resent_storage (storage_response show env c)) c ≡ ok c
  unfolding apply_storage resent_storage storage_response field duration_field
  apply_storage-resent env c k =
      rw
        (
          set_duration-config (codes "storage.purge_interval") c.purge_interval c.purge_interval
              k.0,
          set_duration-config (codes "storage.receive_log_retention") c.receive_log_retention
              c.receive_log_retention k.1.0,
          set_duration-config (codes "storage.public_chat_retention") c.public_chat_retention
              c.public_chat_retention k.1.1.0,
          set_duration-config (codes "storage.nodes_retention") c.nodes_retention c.nodes_retention
              k.1.1.1.0,
          set_duration-config (codes "storage.telemetry_retention") c.telemetry_retention
              c.telemetry_retention k.1.1.1.1.0,
        )
        refl

  abbrev pub serial_durations : Serial → List ℤ
  serial_durations c =
      c.read_timeout ∷ c.reconnect_initial ∷ c.reconnect_max ∷ c.stable_reset_after ∷ []

  pub apply_serial-resent :
      (env : EnvOverrides) (c : Serial)
      → AreReadBack (serial_durations c)
      → apply_serial (parse_duration std) (resent_serial (serial_response show env c)) c ≡ ok c
  unfolding apply_serial resent_serial serial_response field duration_field
  apply_serial-resent env c k =
      rw
        (
          set_duration-config (codes "serial.read_timeout") c.read_timeout c.read_timeout k.0,
          set_duration-config (codes "serial.reconnect_initial") c.reconnect_initial
              c.reconnect_initial k.1.0,
          set_duration-config (codes "serial.reconnect_max") c.reconnect_max c.reconnect_max
              k.1.1.0,
          set_duration-config (codes "serial.stable_reset_after") c.stable_reset_after
              c.stable_reset_after k.1.1.1.0,
        )
        refl

  abbrev pub netconsole_durations : NetConsole → List ℤ
  netconsole_durations c =
      c.connect_timeout ∷ c.auth_timeout ∷ c.write_timeout ∷ c.reconnect_initial ∷ c.reconnect_max
      ∷ c.stable_reset_after ∷ []

  pub apply_netconsole-resent :
      (env : EnvOverrides) (c : NetConsole)
      → AreReadBack (netconsole_durations c)
      → apply_netconsole (parse_duration std) (resent_netconsole (netconsole_response show env c)) c
        ≡ ok c
  unfolding apply_netconsole resent_netconsole netconsole_response field duration_field
  apply_netconsole-resent env c k =
      rw
        (
          set_duration-config (codes "netconsole.connect_timeout") c.connect_timeout
              c.connect_timeout k.0,
          set_duration-config (codes "netconsole.auth_timeout") c.auth_timeout c.auth_timeout k.1.0,
          set_duration-config (codes "netconsole.write_timeout") c.write_timeout c.write_timeout
              k.1.1.0,
          set_duration-config (codes "netconsole.reconnect_initial") c.reconnect_initial
              c.reconnect_initial k.1.1.1.0,
          set_duration-config (codes "netconsole.reconnect_max") c.reconnect_max c.reconnect_max
              k.1.1.1.1.0,
          set_duration-config (codes "netconsole.stable_reset_after") c.stable_reset_after
              c.stable_reset_after k.1.1.1.1.1.0,
          new_console_password-display c.password,
        )
        refl
