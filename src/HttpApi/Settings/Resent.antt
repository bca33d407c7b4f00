-- ===== src/HttpApi/Settings/Resent.antt =====
-- internal/httpapi/configapi.go: sending back what `getConfig` answers.
use gomeshcom_client.Prelude.{ℤ, Option, ◌≡◌, refl}
use gomeshcom_client.Text.{Text, codes}
use gomeshcom_client.Config.{Config}
use gomeshcom_client.Config.Toml.{EnvOverrides}
use gomeshcom_client.HttpApi.Settings.Apply.{ok, apply_stats, apply_request}
use gomeshcom_client.HttpApi.Settings.Shown.{
  field, duration_field, stats_response, build_config_response,
}
use gomeshcom_client.HttpApi.Settings.Resending.{resent, resent_stats}
use gomeshcom_client.HttpApi.Settings.Sections.{
  AreReadBack, IsReadBack, set_duration-std, receive_log_durations, chat_log_durations,
  auth_durations, storage_durations, serial_durations, netconsole_durations,
  apply_receive_log-resent, apply_chat_log-resent, apply_auth-resent, apply_storage-resent,
  apply_serial-resent, apply_netconsole-resent,
}

module _ (std : Text → Option ℤ) (show : ℤ → Text) where
  -- What time.ParseDuration has to read back.
  pub record AreDurationsReadBack (c : Config) : Type 0 where
    pub receive_log : AreReadBack std show (receive_log_durations std show c.receive_log)
    pub chat_log : AreReadBack std show (chat_log_durations std show c.chat_log)
    pub dedup_ttl : IsReadBack std show c.dedup_ttl
    pub auth : AreReadBack std show (auth_durations std show c.auth)
    pub storage : AreReadBack std show (storage_durations std show c.storage)
    pub serial : AreReadBack std show (serial_durations std show c.serial)
    pub netconsole : AreReadBack std show (netconsole_durations std show c.netconsole)

  -- Where time.ParseDuration reads every duration of the configuration back from the text that
  -- Duration.String gives: a request that sets every field to the value that getConfig answers, the
  -- masked passwords among them, is read without an error and changes nothing.
  pub apply_request-resent :
      (env : EnvOverrides) (c : Config)
      → AreDurationsReadBack c
      → apply_request std (resent (build_config_response show c env)) c ≡ ok c
  unfolding apply_request resent build_config_response apply_stats resent_stats stats_response field
      duration_field
  apply_request-resent env c k =
      rw
        (
          apply_receive_log-resent std show env c.receive_log k.receive_log,
          apply_chat_log-resent std show env c.chat_log k.chat_log,
          set_duration-std std show (codes "send.dedup_ttl") c.dedup_ttl c.dedup_ttl k.dedup_ttl,
          apply_auth-resent std show env c.auth k.auth,
          apply_storage-resent std show env c.storage k.storage,
          apply_serial-resent std show env c.serial k.serial,
          apply_netconsole-resent std show env c.netconsole k.netconsole,
        )
        refl
