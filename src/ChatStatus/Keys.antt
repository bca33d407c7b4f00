-- ===== src/ChatStatus/Keys.antt =====
-- internal/chatstatus/status.go: `dmStatusKey` beside `StatusKey` of internal/chatlog/chatlog.go.
use gomeshcom_client.Prelude.{
  ℕ, zero, suc, none, some, ◌-◌, take, Option-cases, ◌≡◌, ◌≢◌, ◌⊎◌, inl, inr, refl, true, [], ◌∷◌,
  arith, all, take-append,
}
use gomeshcom_client.Text.{Text, upper, to_upper, has_prefix, cut_prefix, trim_prefix, last_index}
use gomeshcom_client.Text.Search.{text_eq_refl, text_eq_ne, lacks, index-append, drop-suc-append}
use gomeshcom_client.Callsign.Grammar.{IsCallsign}
use gomeshcom_client.Callsign.Normal.{is_call_byte, IsCallsign-call_bytes, IsCallsign-to_upper}
use gomeshcom_client.Chatlog.Ids.{
  is_dm, sanitize_byte, sanitize_from, base_call, origin, is_foreign, interlocutor, conversation_id,
  status_key,
}
use gomeshcom_client.Chatlog.Ids
use gomeshcom_client.Chatlog.Routing.{dm_id, conversation_id-rows, status_key-rows}
use gomeshcom_client.Meshcom.Utf8.{rune_width}
use gomeshcom_client.Chatlog.Keys.{IsCallsign-ne-nil, sanitize-call_bytes, lacks-call_bytes}
use gomeshcom_client.ChatStatus.{replace_unsafe, sanitize, dm_key_of, dm_status_key}

-- What the chat log has sanitized stays as it is.
sanitize_from_safe : (skip : ℕ) (s : Text) → sanitize (sanitize_from skip s) ≡ sanitize_from skip s
unfolding sanitize replace_unsafe sanitize_from sanitize_byte to_upper upper
sanitize_from_safe skip [] = refl
sanitize_from_safe (suc k) (c ∷ s) = sanitize_from_safe k s
sanitize_from_safe zero (c ∷ s) =
    ground (arith, sanitize_from_safe (elim (rune_width c s) [ none ↦ 0 | some w ↦ w - 1 ]) s)

sanitize_safe : (s : Text) → sanitize (Ids.sanitize s) ≡ Ids.sanitize s
unfolding Ids.sanitize
sanitize_safe s = sanitize_from_safe 0 s

sanitize-call : (s : Text) → all is_call_byte s ≡ true → sanitize s ≡ s
unfolding sanitize replace_unsafe to_upper upper
sanitize-call [] h = refl
sanitize-call (c ∷ s) h = ground (arith, sanitize-call s)

dm_status_key-dm_id :
    (local peer src dst : Text)
    → lacks b'_' local ≡ true
    → dm_status_key (dm_id local peer) src dst ≡ dm_key_of (dm_id local peer) local peer src dst
unfolding dm_status_key has_prefix trim_prefix cut_prefix
dm_status_key-dm_id local peer src dst h = ground (
  arith,
  index-append b'_' local peer h,
  take-append local (b'_' ∷ peer),
  drop-suc-append b'_' local peer,
)

all-take : (n : ℕ) (s : Text) → all is_call_byte s ≡ true → all is_call_byte (take n s) ≡ true
all-take zero s h = refl
all-take (suc n) [] h = refl
all-take (suc n) (c ∷ s) h = ground (arith, all-take n s)

base_call-call_bytes :
    (s : Text) → all is_call_byte s ≡ true → all is_call_byte (base_call s) ≡ true
unfolding base_call
base_call-call_bytes s h = elim (Option-cases (last_index b'-' s)) [
  | inl n ↦ rw (n, base_call) h
  | inr (i, e) ↦ rw (e, base_call) (ground (arith, all-take i s h))
]

dm_key_of-sent :
    (conv peer src dst my : Text)
    → all is_call_byte my ≡ true
    → origin src ≡ my
    → dm_key_of conv (base_call my) (Ids.sanitize peer) src dst ≡ dm_id my (Ids.sanitize peer)
unfolding dm_key_of
dm_key_of-sent conv peer src dst my b e =
    ground (arith, text_eq_refl (base_call my), sanitize-call my b, sanitize_safe peer)

dm_key_of-received :
    (conv peer src dst my : Text)
    → all is_call_byte my ≡ true
    → to_upper dst ≡ my
    → base_call (origin src) ≢ base_call my
    → dm_key_of conv (base_call my) (Ids.sanitize peer) src dst ≡ dm_id my (Ids.sanitize peer)
unfolding dm_key_of
dm_key_of-received conv peer src dst my b e n = ground (
  arith,
  text_eq_ne (base_call (origin src)) (base_call my) n,
  text_eq_refl (base_call my),
  sanitize-call my b,
  sanitize_safe peer,
)

-- A direct message that the operator, whose callsign is of the grammar, sent from that callsign,
-- or received at it from a station of another base call, is counted under the key of the read
-- state, which is found again from the identifier of the stored conversation.
pub dm_status_key-status_key :
    (src dst my : Text)
    → IsCallsign my
    → is_dm dst ≡ true
    → (origin src ≡ my) ⊎ ((to_upper dst ≡ my) × (base_call (origin src) ≢ base_call my))
    → dm_status_key (conversation_id src dst my) src dst ≡ status_key src dst my
unfolding is_foreign
dm_status_key-status_key src dst my c d h =
    let b = IsCallsign-call_bytes c in
    let base_bytes = base_call-call_bytes my b in
    let other = interlocutor (origin src) (to_upper dst) (base_call my) in
    let conv = dm_id (base_call my) (Ids.sanitize other) in
    rw
      (
        status_key-rows,
        conversation_id-rows,
        IsCallsign-to_upper c,
        sanitize-call_bytes my b,
        sanitize-call_bytes (base_call my) base_bytes,
      )
      (elim h [
        | inl e ↦
            (ground (
              arith,
              d,
              text_eq_ne my [] (IsCallsign-ne-nil c),
              text_eq_refl (base_call my),
              dm_status_key-dm_id (base_call my) (Ids.sanitize other) src dst
                  (lacks-call_bytes (base_call my) base_bytes),
              dm_key_of-sent conv other src dst my b e,
            ))
        | inr (e, n) ↦
            (ground (
              arith,
              d,
              text_eq_ne my [] (IsCallsign-ne-nil c),
              text_eq_refl (base_call my),
              dm_status_key-dm_id (base_call my) (Ids.sanitize other) src dst
                  (lacks-call_bytes (base_call my) base_bytes),
              dm_key_of-received conv other src dst my b e n,
            ))
      ])
