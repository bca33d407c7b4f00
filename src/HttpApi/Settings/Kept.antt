-- ===== src/HttpApi/Settings/Kept.antt =====
-- internal/httpapi/configapi.go: what an update leaves, by its answer.
use gomeshcom_client.Prelude.{
  ℤ, Bool, true, false, Option, none, some, ◌≡◌, ◌⊎◌, ◌∙◌, refl, inl, inr, Bool-cases, Option-cases,
  arith,
}
use gomeshcom_client.Text.{Text}
use gomeshcom_client.Callsign
use gomeshcom_client.Callsign.{is_valid}
use gomeshcom_client.Text.Search.{text_eq_iff}
use gomeshcom_client.Callsign.Normal.{normalize_idem}
use gomeshcom_client.Station.{Identity, update}
use gomeshcom_client.Saving.{put, begin_save, finish_save, save_if_dirty}
use gomeshcom_client.Config.{Config, normalize}
use gomeshcom_client.Config.Check.{
  Resolver, ConfigError, refuse, and_then, validate, validate_normal, validate_messages,
}
use gomeshcom_client.Config.Toml.{TomlFile, build_toml_content}
use gomeshcom_client.HttpApi.Settings.Request.{UpdateRequest}
use gomeshcom_client.HttpApi.Settings.Apply.{UpdateError, Result, ok, err, is_some, apply_request}
use gomeshcom_client.HttpApi.Settings.Locks.{check_env_locked, requires_restart}
use gomeshcom_client.HttpApi.Settings.Update.{
  Server, Answer, refused, updated, apply_callsign, apply_live, persist, accept, update_config,
}

-- A file that is there is the one that is written for the configuration.
abbrev pub IsFileOf : Config → Option TomlFile → Type 0
IsFileOf c none = Unit
IsFileOf c (some file) = file ≡ build_toml_content c

-- The identity, where there is one, has the callsign.
abbrev pub HasCallsign : Text → Option Identity → Type 0
HasCallsign callsign none = Unit
HasCallsign callsign (some id) = id.current ≡ callsign

-- What an update leaves of the server, by its answer.
abbrev pub IsKept : Resolver → Bool → Server → Server × Answer → Type 0
IsKept r changed s (s', refused e) = s' ≡ s
IsKept r changed s (s', updated restart) =
    (validate r s'.config ≡ none)
    × IsFileOf s'.config s'.file
    × (changed ≡ true → HasCallsign s'.config.my_call s'.identity)

refuse-none :
    (b : Bool) (e : ConfigError) (o : Option ConfigError)
    → refuse b e o ≡ none
    → (b ≡ false) × (o ≡ none)
refuse-none true e o n = absurd (ground arith)
refuse-none false e o n = (refl, n)

and_then-none : (a b : Option ConfigError) → and_then a b ≡ none → (a ≡ none) × (b ≡ none)
and_then-none none b n = (refl, n)
and_then-none (some e) b n = absurd (ground arith)

-- A configuration that Validate accepts has a callsign that Update accepts.
pub validate-is_valid :
    (r : Resolver) (c : Config)
    → validate r c ≡ none
    → is_valid (Callsign.normalize c.my_call) ≡ true
unfolding validate validate_normal validate_messages normalize
validate-is_valid r c n = ground (arith, n)

-- The identity that Update and a save leave.
saved_callsign :
    (saves : Bool) (cs : Text) (id : Identity)
    → is_valid (Callsign.normalize cs) ≡ true
    → (save_if_dirty saves (update cs id).0).current ≡ Callsign.normalize cs
unfolding update put begin_save finish_save save_if_dirty
saved_callsign saves cs id v = ground (arith, v, text_eq_iff id.current (Callsign.normalize cs))

pub update-some :
    (cs : Text) (id : Identity)
    → is_valid (Callsign.normalize cs) ≡ true
    → (update cs id).1 ≡ some (Callsign.normalize cs)
unfolding update
update-some cs id v = ground (arith, v)

apply_callsign-IsKept :
    (r : Resolver) (restart saves : Bool) (c : Config) (id : Identity) (s s' : Server)
    → validate r (normalize c) ≡ none
    → IsFileOf (normalize c) s'.file
    → IsKept r true s (apply_callsign r restart saves (normalize c) id s')
unfolding apply_callsign normalize
apply_callsign-IsKept r restart saves c id s s' v f =
    let w = validate-is_valid r (normalize c) v in
    let cs = Callsign.normalize c.my_call in
    let same = (normalize_idem c.my_call).0 in
    rw (apply_callsign, update-some cs id w, same) (v, f, λ e. saved_callsign saves cs id w ∙ same)

apply_live-IsKept :
    (r : Resolver) (restart changed saves : Bool) (c : Config) (s s' : Server)
    → validate r (normalize c) ≡ none
    → IsFileOf (normalize c) s'.file
    → IsKept r changed s (apply_live r restart changed saves (normalize c) s')
unfolding apply_live
apply_live-IsKept r restart false saves c s s' v f = (v, f, λ e. absurd (ground arith))
apply_live-IsKept r restart true saves c s s' v f = elim (Option-cases s'.identity) [
  | inl n ↦ rw n (v, f, λ e. rw n tt)
  | inr (id, n) ↦ rw n (apply_callsign-IsKept r restart saves c id s s' v f)
]

persist-IsFileOf :
    (writes : Bool) (c : Config) (old : Option TomlFile) (file : Option TomlFile)
    → persist writes (normalize c) old ≡ some file
    → IsFileOf (normalize c) file
unfolding persist
persist-IsFileOf writes c none file e = ground arith
persist-IsFileOf writes c (some old) file e = ground arith

accept-IsKept :
    (r : Resolver) (restart changed writes saves : Bool) (c : Config) (s : Server)
    → IsKept r changed s (accept r restart changed writes saves c s)
unfolding accept
accept-IsKept r restart changed writes saves c s = elim (Option-cases (validate r (normalize c))) [
  | inr (e, n) ↦ rw (accept, n) refl
  | inl v ↦ elim (Option-cases (persist writes (normalize c) s.file)) [
    | inl n ↦ rw (accept, v, n) refl
    | inr (file, n) ↦
        rw (accept, v, n)
          (apply_live-IsKept r restart changed saves c s (record s { file = file }) v
            (persist-IsFileOf writes c s.file file n))
  ]
]

Result-cases {ℓ} :
    {A : Type ℓ} (x : Result A) → ((e : UpdateError) × (x ≡ err e)) ⊎ ((a : A) × (x ≡ ok a))
Result-cases (err e) = inl (e, refl)
Result-cases (ok a) = inr (a, refl)

-- An update that answers an error leaves the server as it was, its file, its identity and its events
-- included. An update that answers no error leaves a configuration that Validate accepts; the file, if
-- the server has one, is that of the configuration; and if the request sets the callsign, an identity
-- that the server has is at the callsign of the configuration. This holds whether the writes of the
-- file and of the identity succeed or not.
pub update_config-IsKept :
    (r : Resolver) (std : Text → Option ℤ) (writes saves : Bool) (u : UpdateRequest) (s : Server)
    → IsKept r (is_some u.my_call) s (update_config r std writes saves u s)
unfolding update_config
update_config-IsKept r std writes saves u s = elim (Bool-cases s.config.demo_mode) [
  | inl d ↦ simp (d) refl
  | inr d ↦ elim (Option-cases (check_env_locked u s.env)) [
    | inr (suffix, n) ↦ simp (d, n) refl
    | inl n ↦ elim (Result-cases (apply_request std u s.config)) [
      | inl (e, a) ↦ simp (d, n, a) refl
      | inr (candidate, a) ↦
          simp (d, n, a)
            (accept-IsKept r (requires_restart u) (is_some u.my_call) writes saves candidate s)
    ]
  ]
]
