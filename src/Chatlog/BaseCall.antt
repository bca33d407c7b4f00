-- ===== src/Chatlog/BaseCall.antt =====
-- internal/chatlog/chatlog.go: `BaseCall` and numeric suffixes.
use gomeshcom_client.Prelude.{
  suc, ◌≡◌, ◌⊎◌, refl, true, inl, inr, [], ◌∷◌, ◌++◌, arith, Bool-cases, Option-cases, all, take,
  drop, take-append,
}
use gomeshcom_client.Text.{Text, is_digit, last_index}
use gomeshcom_client.Text.Search.{
  lacks, last_index-append, last_index-splits, last_index-lacks, drop-suc-append,
}
use gomeshcom_client.Chatlog.Ids.{is_numeric, base_call}

pub digits-lacks : (s : Text) → all is_digit s ≡ true → lacks b'-' s ≡ true
digits-lacks [] h = refl
digits-lacks (c ∷ s) h = ground (arith, digits-lacks s)

-- A numeric suffix behind a dash is stripped, whatever stands in front of it.
pub base_call-append : (b d : Text) → is_numeric d ≡ true → base_call (b ++ (b'-' ∷ d)) ≡ b
unfolding base_call
base_call-append b d h =
    let l : all is_digit d ≡ true = unfold is_numeric in ground arith in
    rw (last_index-append b'-' b d (digits-lacks d l), base_call)
      (rw (drop-suc-append b'-' b d, h) (take-append b (b'-' ∷ d)))

-- The parts of a callsign with a numeric suffix.
pub record HasSsid (s : Text) : Type 0 where
  pub base : Text
  pub ssid : Text
  pub splits : s ≡ base ++ (b'-' ∷ ssid)
  pub numeric : is_numeric ssid ≡ true

base_call-cases : (s : Text) → (base_call s ≡ s) ⊎ HasSsid s
unfolding base_call
base_call-cases s = elim (Option-cases (last_index b'-' s)) [
  | inl e ↦ inl (rw (e, base_call))
  | inr (i, e) ↦ elim (Bool-cases (is_numeric (drop (suc i) s))) [
    | inl n ↦ inr (record {
      base = take i s;
      ssid = drop (suc i) s;
      splits = last_index-splits b'-' s i e;
      numeric = n;
    })
    | inr n ↦ inl (rw (e, base_call) (rw n))
  ]
]

-- `BaseCall` removes a dash with a numeric suffix where there is one, which is then unique, and
-- otherwise returns the callsign as it stands.
pub base_call-HasSsid :
    (s : Text) → ((p : HasSsid s) → base_call s ≡ p.base) × ((¬ HasSsid s) → base_call s ≡ s)
base_call-HasSsid s = (
  λ p. rw p.splits (base_call-append p.base p.ssid p.numeric),
  λ h. elim (base_call-cases s) [ inl e ↦ e | inr p ↦ absurd (h p) ],
)

pub base_call-lacks : (s : Text) → lacks b'-' s ≡ true → base_call s ≡ s
unfolding base_call
base_call-lacks s h = rw (last_index-lacks b'-' s h, base_call)
