-- ===== src/Config/Restored.antt =====
-- internal/config: a configuration that was written, read back.
use gomeshcom_client.Prelude.{◌≡◌, ◌≢◌, refl, false, [], none, some, arith}
use gomeshcom_client.Text.{text_eq}
use gomeshcom_client.Config.{Config, normalize}
use gomeshcom_client.Config.Check.{Resolver, validate, validate_normal, validate_auth}
use gomeshcom_client.Config.Toml.{
  EnvOverrides, merge_toml, merge_file, merge_auth, merge_serial, merge_netconsole,
  merge_receive_log, merge_stats, merge_chat_log, merge_compression, merge_storage, saved_fields,
  build_toml_content,
}

-- No variable of the environment is set.
abbrev pub no_env : EnvOverrides
no_env suffix = false

-- Without variables of the environment, what is read back from a file that was written is the
-- configuration in its canonical form, but for the data directory and the password of the HTTP API.
pub merge_toml-build_toml_content :
    (c base : Config)
    → merge_toml no_env (some (build_toml_content c)) base ≡ record (normalize c) {
      data_dir = base.data_dir;
      auth = record (normalize c).auth { password = [] };
    }
unfolding merge_toml merge_file merge_auth merge_serial merge_netconsole merge_receive_log
    merge_stats merge_chat_log merge_compression merge_storage saved_fields build_toml_content
merge_toml-build_toml_content c base = refl

-- A configuration with a user name and no password is refused.
validate-auth_pair :
    (r : Resolver) (c : Config)
    → text_eq c.auth.username [] ≡ false
    → c.auth.password ≡ []
    → validate r c ≢ none
unfolding validate validate_normal validate_auth normalize text_eq
validate-auth_pair r c u p v = ground arith

-- A configuration with a user name and a password for the HTTP API, once it is written, is refused
-- when it is read back without a password in the environment, and the program does not start.
pub saved_auth_is_refused :
    (r : Resolver) (c base : Config)
    → text_eq c.auth.username [] ≡ false
    → validate r (merge_toml no_env (some (build_toml_content c)) base) ≢ none
unfolding merge_toml merge_file merge_auth saved_fields build_toml_content normalize
saved_auth_is_refused r c base u =
    validate-auth_pair r (merge_toml no_env (some (build_toml_content c)) base) u refl
