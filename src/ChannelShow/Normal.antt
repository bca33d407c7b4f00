-- ===== src/ChannelShow/Normal.antt =====
-- internal/channelshow/store.go: the normal form of the list of channels.
use gomeshcom_client.Prelude.{
  true, false, ◌||◌, List, [], ◌∷◌, ◌++◌, ◌≡◌, ◌⊎◌, inl, inr, refl, arith, Bool-cases, append_assoc,
  append-nil,
}
use gomeshcom_client.Text.{Text, text_eq, to_lower, lower, trim_space, trim_left, trim_right}
use gomeshcom_client.Text.Search.{text_eq_iff}
use gomeshcom_client.Text.Trim.{trim_space_idem}
use gomeshcom_client.Saving.{Store, put}
use gomeshcom_client.ChannelShow.{
  Config, mode_all, mode_allowlist, default_config, ConfigError, Result, ok, err, valid_channel,
  is_seen, normalize_onto, normalize_channels, effective_mode, normalize, lists_equal,
  configs_equal, update,
}

-- Each channel is valid, carries no white space, and stands once.
abbrev pub AreNormal : List Text → List Text → Type 0
AreNormal seen [] = Unit
AreNormal seen (c ∷ cs) =
    (valid_channel c ≡ true)
    × (trim_space c ≡ c)
    × (is_seen c seen ≡ false)
    × AreNormal (seen ++ (c ∷ [])) cs

is_seen-concat :
    (x y : Text) (ys : List Text) → is_seen x (ys ++ (y ∷ [])) ≡ (is_seen x ys || text_eq y x)
unfolding is_seen
is_seen-concat x y [] = ground arith
is_seen-concat x y (z ∷ ys) = ground (arith, is_seen-concat x y ys)

AreNormal-concat :
    (seen cs : List Text) (c : Text)
    → AreNormal seen cs
    → valid_channel c ≡ true
    → trim_space c ≡ c
    → is_seen c (seen ++ cs) ≡ false
    → AreNormal seen (cs ++ (c ∷ []))
AreNormal-concat seen [] c n v t s = (v, t, rw append-nil at s, tt)
AreNormal-concat seen (d ∷ cs) c (a, b, e, n) v t s =
    (a, b, e, AreNormal-concat (seen ++ (d ∷ [])) cs c n v t (rw append_assoc s))

normalize_onto-AreNormal :
    (channels normalized out : List Text)
    → AreNormal [] normalized
    → normalize_onto normalized channels ≡ ok out
    → AreNormal [] out
unfolding normalize_onto
normalize_onto-AreNormal [] normalized out n h =
    let e : normalized ≡ out = ground arith in rw e at n
normalize_onto-AreNormal (raw ∷ channels) normalized out n h =
    elim (Bool-cases (valid_channel (trim_space raw))) [
      | inr bad ↦ absurd (ground arith)
      | inl good ↦ elim (Bool-cases (is_seen (trim_space raw) normalized)) [
        | inl old ↦ normalize_onto-AreNormal channels normalized out n (ground arith)
        | inr new ↦
            normalize_onto-AreNormal channels (normalized ++ (trim_space raw ∷ [])) out
              (AreNormal-concat [] normalized (trim_space raw) n good (trim_space_idem raw) new)
              (ground arith)
      ]
    ]

-- Channels that are normal are kept as they are, in their order.
normalize_onto_normal :
    (seen cs : List Text) → AreNormal seen cs → normalize_onto seen cs ≡ ok (seen ++ cs)
unfolding normalize_onto
normalize_onto_normal seen [] n = rw append-nil
normalize_onto_normal seen (c ∷ cs) (v, t, s, n) =
    ground
      (arith, v, t, s, normalize_onto_normal (seen ++ (c ∷ [])) cs n, append_assoc seen (c ∷ []) cs)

-- Channels that `NormalizeChannels` returns are valid, carry no white space and are distinct, and
-- normalizing them again returns them in the same order.
pub normalize_channels-AreNormal :
    (channels out : List Text)
    → normalize_channels channels ≡ ok out
    → AreNormal [] out × (normalize_channels out ≡ ok out)
unfolding normalize_channels
normalize_channels-AreNormal channels out h =
    let n = normalize_onto-AreNormal channels [] out tt h in (n, normalize_onto_normal [] out n)

Result-cases {ℓ} :
    {A : Type ℓ} (r : Result A) → ((e : ConfigError) × (r ≡ err e)) ⊎ ((a : A) × (r ≡ ok a))
Result-cases (ok a) = inr (a, refl)
Result-cases (err e) = inl (e, refl)

abbrev allowlist : List Text → Config
allowlist channels = record { mode = mode_allowlist; channels = channels }

modes :
    (effective_mode default_config ≡ mode_all)
    × ((cs : List Text) → effective_mode (allowlist cs) ≡ mode_allowlist)
unfolding effective_mode to_lower lower trim_space trim_left trim_right
modes = (refl, λ cs. refl)

normalize-default : normalize default_config ≡ ok default_config
unfolding normalize text_eq
normalize-default = rw modes.0

normalize-allowlist :
    (out : List Text)
    → normalize_channels out ≡ ok out
    → normalize (allowlist out) ≡ ok (allowlist out)
unfolding normalize text_eq
normalize-allowlist out h = ground (arith, modes.1 out)

normalize-cases :
    (config out : Config)
    → normalize config ≡ ok out
    → (out ≡ default_config)
      ⊎ ((channels : List Text) × (normalize_channels config.channels ≡ ok channels)
          × (out ≡ allowlist channels))
unfolding normalize
normalize-cases config out h = elim (Bool-cases (text_eq (effective_mode config) mode_all)) [
  | inl e ↦ inl (ground arith)
  | inr n ↦ elim (Result-cases (normalize_channels config.channels)) [
    | inl (x, e) ↦ absurd (ground arith)
    | inr (channels, e) ↦ inr (channels, e, ground arith)
  ]
]

-- What `Normalize` returns is the default or an allowlist of distinct valid channels with no white
-- space, and normalizing it again returns it unchanged.
pub normalize-AreNormal :
    (config out : Config)
    → normalize config ≡ ok out
    → ((out ≡ default_config) ⊎ ((out.mode ≡ mode_allowlist) × AreNormal [] out.channels))
      × (normalize out ≡ ok out)
normalize-AreNormal config out h = elim (normalize-cases config out h) [
  | inl e ↦ (inl e, rw e normalize-default)
  | inr (channels, n, e) ↦
      let (a, b) = normalize_channels-AreNormal config.channels channels n in
      (inr (ground arith, rw e a), rw e (normalize-allowlist channels b))
]

lists_equal_sound : (left right : List Text) → lists_equal left right ≡ true → left ≡ right
unfolding lists_equal
lists_equal_sound (a ∷ left) (b ∷ right) h =
    ground (arith, text_eq_iff a b, lists_equal_sound left right)
lists_equal_sound _ _ h = ground arith

configs_equal_sound : (left right : Config) → configs_equal left right ≡ true → left ≡ right
unfolding configs_equal
configs_equal_sound left right h =
    ground (arith, text_eq_iff left.mode right.mode, lists_equal_sound left.channels right.channels)

-- `Update` makes the normal form current and returns it, whether or not it was current before; a
-- configuration that does not normalize changes nothing, and its error is returned.
pub update-normalize :
    (config : Config) (s : Store Config)
    → ((update config s).1 ≡ normalize config)
      × ((out : Config) → normalize config ≡ ok out → (update config s).0.current ≡ out)
      × ((e : ConfigError) → normalize config ≡ err e → (update config s).0 ≡ s)
unfolding update put
update-normalize config s = elim (Result-cases (normalize config)) [
  | inl (e, h) ↦ (rw (h, update), λ out k. absurd (ground arith), λ e' k. rw (h, update))
  | inr (out, h) ↦
      let same = configs_equal_sound s.current out in
      (ground (arith, same), λ out' k. ground (arith, same), λ e k. absurd (ground arith))
]
