-- ===== src/Callsign.antt =====
-- internal/callsign/callsign.go: `Normalize` and `IsValid`.
pub mod Grammar
pub mod Normal
use gomeshcom_client.Prelude.{
  ℕ, zero, suc, Bool, true, false, ◌&&◌, ◌||◌, List, [], ◌∷◌, leb, ◌==◌, if◌then◌else◌,
}
use gomeshcom_client.Text.{Text, within, is_digit, to_upper, trim_space}

unfoldable pub normalize : Text → Text
normalize value = to_upper (trim_space value)

-- The class [A-Z0-9].
abbrev pub is_alnum : ℕ → Bool
is_alnum c = within b'A' b'Z' c || is_digit c

-- `(?:-[0-9]{1,2})?$`
unfoldable pub match_ssid : Text → Bool
match_ssid [] = true
match_ssid (c ∷ []) = false
match_ssid (c ∷ d ∷ []) = c == b'-' && is_digit d
match_ssid (c ∷ d ∷ e ∷ []) = c == b'-' && (is_digit d && is_digit e)
match_ssid (c ∷ d ∷ e ∷ f ∷ s) = false

-- `[A-Z0-9]{3,10}` with `n` bytes of it read, and then the suffix. The dash is not in the class,
-- so the longest run is the only one that can match.
unfoldable pub match_base : ℕ → Text → Bool
match_base n [] = within 3 10 n
match_base n (c ∷ s) =
    if is_alnum c then match_base (suc n) s else within 3 10 n && match_ssid (c ∷ s)

-- `Pattern.MatchString`.
unfoldable pub match_pattern : Text → Bool
match_pattern s = match_base 0 s

unfoldable pub is_valid : Text → Bool
is_valid value = match_pattern (normalize value)
