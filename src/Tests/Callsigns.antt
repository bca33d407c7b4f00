-- ===== src/Tests/Callsigns.antt =====
-- internal/callsign at the examples of its comment.
use gomeshcom_client.Prelude.{◌≡◌, refl, true, false, arith}
use gomeshcom_client.Text.{Text, codes, to_upper, trim_left, trim_right, trim_space, upper}
use gomeshcom_client.Callsign.{normalize, match_ssid, match_base, match_pattern, is_valid}
use gomeshcom_client.Callsign.Grammar.{IsCallsign, two}
use gomeshcom_client.Callsign.Normal.{IsCallsign-normalize}

program : Unit {0}
unfolding normalize match_ssid match_base match_pattern is_valid to_upper trim_left trim_right
    trim_space upper
program = tt

abbrev call : Text
call = codes "IU5PMP-10"

call-IsCallsign : IsCallsign call
call-IsCallsign = record {
  base = codes "IU5PMP";
  ssid = codes "-10";
  splits = refl;
  alnum = refl;
  at_least = omega arith;
  at_most = omega arith;
  suffix = two b'1' b'0' refl refl;
}

normalize_examples :
    (normalize (codes " iu5pmp-1 ") ≡ codes "IU5PMP-1")
    × (is_valid (codes " iu5pmp-1 ") ≡ true)
    × (is_valid (codes "IU5PMP-X") ≡ false)
    × (is_valid (codes "IU") ≡ false)
    × (is_valid (codes "IU5PMP-123") ≡ false)
unfolding program
normalize_examples = (refl, refl, refl, refl, refl)

IsCallsign-normalize_example : (normalize call ≡ call) × (is_valid call ≡ true)
IsCallsign-normalize_example = IsCallsign-normalize call-IsCallsign
