-- ===== src/Callsign/Normal.antt =====
-- internal/callsign/callsign.go: normalizing, and the callsigns of the grammar.
use gomeshcom_client.Prelude.{
  ℕ, ◌≡◌, refl, ap, Bool, true, ◌||◌, [], ◌∷◌, arith, all, all-append, ◌==◌,
}
use gomeshcom_client.Text.{Text, upper, to_upper, trim_left, trim_right, trim_space}
use gomeshcom_client.Text.Trim.{trim_space_idem, trim_space-to_upper, to_upper_idem}
use gomeshcom_client.Callsign.Grammar.{
  IsSsid, absent, one, two, IsCallsign, match_pattern-IsCallsign,
}
use gomeshcom_client.Callsign.{is_alnum, match_pattern, is_valid, normalize}

-- Normalizing is done once and for all, and validity is a property of the normal form.
pub normalize_idem :
    (s : Text) → (normalize (normalize s) ≡ normalize s) × (is_valid (normalize s) ≡ is_valid s)
unfolding normalize is_valid
normalize_idem s = (e, ap match_pattern e)
  where
    e : to_upper (trim_space (to_upper (trim_space s))) ≡ to_upper (trim_space s)
    e = rw trim_space-to_upper (rw (trim_space_idem, to_upper_idem))

-- The bytes of a callsign.
abbrev pub is_call_byte : ℕ → Bool
is_call_byte c = is_alnum c || c == b'-'

trim_right-all : (s : Text) → all is_call_byte s ≡ true → trim_right s ≡ s
unfolding trim_right
trim_right-all [] h = refl
trim_right-all (c ∷ s) h = ground (arith, trim_right-all s)

trim_left-all : (s : Text) → all is_call_byte s ≡ true → trim_left s ≡ s
unfolding trim_left
trim_left-all [] h = refl
trim_left-all (c ∷ s) h = ground arith

to_upper-all : (s : Text) → all is_call_byte s ≡ true → to_upper s ≡ s
unfolding to_upper upper
to_upper-all [] h = refl
to_upper-all (c ∷ s) h = ground (arith, to_upper-all s)

all-is_call_byte : (s : Text) → all is_alnum s ≡ true → all is_call_byte s ≡ true
all-is_call_byte [] h = refl
all-is_call_byte (c ∷ s) h = ground (arith, all-is_call_byte s)

IsSsid-call_bytes : {s : Text} → IsSsid s → all is_call_byte s ≡ true
IsSsid-call_bytes absent = refl
IsSsid-call_bytes (one d h) = ground arith
IsSsid-call_bytes (two d e h k) = ground arith

pub IsCallsign-call_bytes : {s : Text} → IsCallsign s → all is_call_byte s ≡ true
IsCallsign-call_bytes c =
    rw (c.splits, all-append) (rw (all-is_call_byte c.base c.alnum, IsSsid-call_bytes c.suffix))

pub IsCallsign-to_upper : {s : Text} → IsCallsign s → to_upper s ≡ s
IsCallsign-to_upper {s} c = to_upper-all s (IsCallsign-call_bytes c)

-- A callsign of the grammar is valid as it stands, and normalizing leaves it alone.
pub IsCallsign-normalize : {s : Text} → IsCallsign s → (normalize s ≡ s) × (is_valid s ≡ true)
unfolding normalize is_valid trim_space
IsCallsign-normalize {s} c = (e, rw e ((match_pattern-IsCallsign s).1 c))
  where
    h : all is_call_byte s ≡ true
    h = IsCallsign-call_bytes c

    e : to_upper (trim_right (trim_left s)) ≡ s
    e = rw (trim_left-all s h, trim_right-all s h, to_upper-all s h)
