-- ===== src/Callsign/Grammar.antt =====
-- internal/callsign/callsign.go: the pattern of a callsign read as a grammar.
use gomeshcom_client.Prelude.{
  ℕ, suc, ◌+◌, ◌≤◌, ◌≡◌, refl, ap, ◌↔◌, inl, inr, true, [], ◌∷◌, ◌++◌, arith, length, all,
  Bool-cases,
}
use gomeshcom_client.Text.{Text, is_digit}
use gomeshcom_client.Callsign.{is_alnum, match_ssid, match_base, match_pattern}

-- Nothing, or a dash and one or two digits.
pub data IsSsid : Text → Type 0 where
  absent : IsSsid []
  one : (d : ℕ) → is_digit d ≡ true → IsSsid (b'-' ∷ d ∷ [])
  two : (d e : ℕ) → is_digit d ≡ true → is_digit e ≡ true → IsSsid (b'-' ∷ d ∷ e ∷ [])

pub record IsCallsign (s : Text) : Type 0 where
  pub base : Text
  pub ssid : Text
  pub splits : s ≡ base ++ ssid
  pub alnum : all is_alnum base ≡ true
  pub at_least : 3 ≤ length base
  pub at_most : length base ≤ 10
  pub suffix : IsSsid ssid

match_ssid-IsSsid : (s : Text) → match_ssid s ≡ true → IsSsid s
unfolding match_ssid
match_ssid-IsSsid [] h = absent
match_ssid-IsSsid (c ∷ []) h = absurd (ground arith)
match_ssid-IsSsid (c ∷ d ∷ []) h = let e : c ≡ b'-' = ground arith in rw e (one d (ground arith))
match_ssid-IsSsid (c ∷ d ∷ x ∷ []) h =
    let e : c ≡ b'-' = ground arith in rw e (two d x (ground arith) (ground arith))
match_ssid-IsSsid (c ∷ d ∷ x ∷ y ∷ s) h = absurd (ground arith)

-- What a run from `n` bytes already read makes of the rest.
record Rest (n : ℕ) (s : Text) : Type 0 where
  run : Text
  ssid : Text
  splits : s ≡ run ++ ssid
  alnum : all is_alnum run ≡ true
  at_least : 3 ≤ n + length run
  at_most : n + length run ≤ 10
  suffix : IsSsid ssid

match_base-Rest : (n : ℕ) (s : Text) → match_base n s ≡ true → Rest n s
unfolding match_base
match_base-Rest n [] h = record {
  run = [];
  ssid = [];
  splits = refl;
  alnum = refl;
  at_least = ground arith;
  at_most = ground arith;
  suffix = absent;
}
match_base-Rest n (c ∷ s) h = elim (Bool-cases (is_alnum c)) [
  | inl e ↦
      let r = match_base-Rest (suc n) s (rw e at h) in
      record {
        run = c ∷ r.run;
        ssid = r.ssid;
        splits = ap (◌∷◌ c) r.splits;
        alnum = rw e r.alnum;
        at_least = omega (arith, r.at_least);
        at_most = omega (arith, r.at_most);
        suffix = r.suffix;
      }
  | inr e ↦ record {
    run = [];
    ssid = c ∷ s;
    splits = refl;
    alnum = refl;
    at_least = ground arith;
    at_most = ground arith;
    suffix = match_ssid-IsSsid (c ∷ s) (ground arith);
  }
]

IsSsid-match_base : {ssid : Text} (n : ℕ) → 3 ≤ n → n ≤ 10 → IsSsid ssid → match_base n ssid ≡ true
unfolding match_base match_ssid
IsSsid-match_base n lo hi absent = ground arith
IsSsid-match_base n lo hi (one d h) = ground arith
IsSsid-match_base n lo hi (two d e h k) = ground arith

match_base-append :
    (run ssid : Text) (n : ℕ)
    → all is_alnum run ≡ true
    → 3 ≤ n + length run
    → n + length run ≤ 10
    → IsSsid ssid
    → match_base n (run ++ ssid) ≡ true
unfolding match_base
match_base-append [] ssid n h lo hi s = IsSsid-match_base n (omega arith) (omega arith) s
match_base-append (c ∷ run) ssid n h lo hi s =
    ground (arith, match_base-append run ssid (suc n) (ground arith) (omega arith) (omega arith) s)

-- The matcher accepts exactly the texts of the grammar: three to ten bytes of A-Z and 0-9, and
-- then nothing or a dash with one or two digits.
pub match_pattern-IsCallsign : (s : Text) → (match_pattern s ≡ true) ↔ IsCallsign s
unfolding match_pattern
match_pattern-IsCallsign s = (
  λ h.
      let r = match_base-Rest 0 s h in
      record {
        base = r.run;
        ssid = r.ssid;
        splits = r.splits;
        alnum = r.alnum;
        at_least = omega (arith, r.at_least);
        at_most = omega (arith, r.at_most);
        suffix = r.suffix;
      },
  λ c. rw c.splits (
      match_base-append c.base c.ssid 0 c.alnum (omega (arith, c.at_least))
        (omega (arith, c.at_most)) c.suffix),
)
