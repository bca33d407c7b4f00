-- ===== src/Config/Durations.antt =====
-- internal/config/toml.go: durations as texts. `time.ParseDuration` and `Duration.String` are
-- arguments.
pub mod RoundTrip
use mathlib.Core.Option
use gomeshcom_client.Prelude.{
  ℕ, suc, ◌+◌, ◌-◌, ◌*◌, ◌/◌, ◌%◌, ◌^◌, ℤ, pos, negsuc, Bool, true, false, ◌&&◌, [], ◌∷◌, ◌++◌,
  Option, none, some, if◌then◌else◌, ltb, leb, ◌==◌, length, drop,
}
use gomeshcom_client.Text.{Text, codes, text_eq, trim_space, trim_suffix}
use gomeshcom_client.Console.Decimal.{string_id}
use gomeshcom_client.Stats.Keys.{atoi}

-- The nanoseconds of an hour and of a day.
abbrev pub hour : ℕ
hour = 3600000000000

abbrev pub day : ℕ
day = 86400000000000

-- The `int64` of 64 bits.
unfoldable pub int64_of : ℕ → ℤ
int64_of bits = let r = bits % 2 ^ 64 in if ltb r (2 ^ 63) then pos r else negsuc (2 ^ 64 - 1 - r)

-- `time.Duration(days) * 24 * time.Hour`, which wraps around.
unfoldable pub days_long : ℤ → ℤ
days_long (pos n) = int64_of (n * day)
days_long (negsuc n) = int64_of (2 ^ 64 - suc n * day % 2 ^ 64)

-- `strings.HasSuffix`
unfoldable pub has_suffix : Text → Text → Bool
has_suffix p s = leb (length p) (length s) && text_eq (drop (length s - length p) s) p

unfoldable pub parse_trimmed : (Text → Option ℤ) → Text → Option ℤ
parse_trimmed parse_std s =
    if has_suffix (codes "d") s
    then Option.map days_long (atoi (trim_suffix (codes "d") s))
    else parse_std s

unfoldable pub parse_duration : (Text → Option ℤ) → Text → Option ℤ
parse_duration parse_std value = parse_trimmed parse_std (trim_space value)

unfoldable pub format_toml_duration : (ℤ → Text) → ℤ → Text
format_toml_duration print_std (negsuc n) = print_std (negsuc n)
format_toml_duration print_std (pos n) =
    if ltb 0 n && n % day == 0
    then string_id (n / day) ++ codes "d"
    else if ltb 0 n && n % hour == 0
    then string_id (n / hour) ++ codes "h"
    else print_std (pos n)
