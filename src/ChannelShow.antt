-- ===== src/ChannelShow.antt =====
-- internal/channelshow/store.go: which public channels the UI shows.
pub mod Normal
use gomeshcom_client.Prelude.{
  ℕ, Bool, true, false, not, ◌&&◌, ◌||◌, List, [], ◌∷◌, ◌++◌, all, is_empty, if◌then◌else◌,
}
use gomeshcom_client.Text.{Text, codes, text_eq, is_digit, to_lower, trim_space}
use gomeshcom_client.Saving.{Store, put}

pub record Config : Type 0 where
  pub mode : Text
  pub channels : List Text

abbrev pub mode_all : Text
mode_all = codes "all"

abbrev pub mode_allowlist : Text
mode_allowlist = codes "allowlist"

abbrev pub default_config : Config
default_config = record { mode = mode_all; channels = [] }

pub data ConfigError : Type 0 where
  invalid_mode invalid_channel : Text → ConfigError

pub data Result {ℓ} (A : Type ℓ) : Type ℓ where
  ok : A → Result A
  err : ConfigError → Result A

infixl 5 ◌>>=◌
abbrev pub ◌>>=◌ {ℓ κ} : {A : Type ℓ} {B : Type κ} → Result A → (A → Result B) → Result B
ok a >>= f = f a
err e >>= f = err e

unfoldable pub valid_channel : Text → Bool
valid_channel channel =
    if text_eq channel (codes "*")
    then true
    else if is_empty channel
    then false
    else all is_digit channel

-- `seen` holds exactly the channels that are in `normalized`.
unfoldable pub is_seen : Text → List Text → Bool
is_seen x [] = false
is_seen x (y ∷ ys) = text_eq y x || is_seen x ys

-- The loop of `NormalizeChannels`.
unfoldable pub normalize_onto : List Text → List Text → Result (List Text)
normalize_onto normalized [] = ok normalized
normalize_onto normalized (raw ∷ channels) =
    let channel = trim_space raw in
    let rest =
      normalize_onto
        (if is_seen channel normalized then normalized else normalized ++ (channel ∷ []))
        channels in
    if not (valid_channel channel) then err (invalid_channel raw) else rest

unfoldable pub normalize_channels : List Text → Result (List Text)
normalize_channels = normalize_onto []

-- An empty mode is read from the channels.
unfoldable pub effective_mode : Config → Text
effective_mode config =
    let mode = to_lower (trim_space config.mode) in
    if is_empty mode then (if is_empty config.channels then mode_all else mode_allowlist) else mode

unfoldable pub normalize : Config → Result Config
normalize config =
    if text_eq (effective_mode config) mode_all
    then ok default_config
    else if text_eq (effective_mode config) mode_allowlist
    then (do
      channels ← normalize_channels config.channels
      ok (record { mode = mode_allowlist; channels = channels }))
    else err (invalid_mode config.mode)

unfoldable pub lists_equal : List Text → List Text → Bool
lists_equal [] [] = true
lists_equal (a ∷ as') (b ∷ bs) = text_eq a b && lists_equal as' bs
lists_equal _ _ = false

-- The loop compares at equal lengths, and unequal lengths are refused before it.
unfoldable pub configs_equal : Config → Config → Bool
configs_equal left right = text_eq left.mode right.mode && lists_equal left.channels right.channels

unfoldable pub update : Config → Store Config → Store Config × Result Config
update config s = elim (normalize config) [
  | err e ↦ (s, err e)
  | ok normalized ↦
      if configs_equal s.current normalized
      then (s, ok s.current)
      else (put normalized s, ok normalized)
]
