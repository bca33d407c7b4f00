-- ===== src/Chatlog/Threads.antt =====
-- internal/chatlog/chatlog.go: the thread of a message, for both directions and for the devices
-- of one operator.
use gomeshcom_client.Meshcom.Utf8.{rune_width}
use gomeshcom_client.Prelude.{
  ℕ, zero, suc, none, some, ◌-◌, ◌≡◌, ◌≢◌, ◌⊎◌, refl, true, false, [], ◌∷◌, ◌++◌, arith, all,
  all-append,
}
use gomeshcom_client.Text.{Text, text_eq, upper, to_upper, cut_prefix, before}
use gomeshcom_client.Text.Search.{text_eq_iff, text_eq_refl, text_eq_ne, lacks, before-lacks}
use gomeshcom_client.Text.Trim.{is_empty-append}
use gomeshcom_client.Callsign.Grammar.{IsCallsign}
use gomeshcom_client.Callsign.Normal.{is_call_byte, IsCallsign-call_bytes, IsCallsign-to_upper}
use gomeshcom_client.Chatlog.Ids.{
  is_numeric, is_dm, is_id_byte, sanitize_byte, sanitize_from, sanitize, base_call, origin,
  is_foreign, interlocutor, conversation_id, valid_conversation_id,
}
use gomeshcom_client.Chatlog.BaseCall.{base_call-append}
use gomeshcom_client.Chatlog.Routing.{dm_id, bare, conversation_id-rows}
use gomeshcom_client.Chatlog.Keys.{IsCallsign-ne-nil}

sanitize_byte-id_byte : (c : ℕ) → is_id_byte (sanitize_byte c) ≡ true
unfolding sanitize_byte upper
sanitize_byte-id_byte c = ground arith

sanitize_from-id_bytes : (skip : ℕ) (s : Text) → all is_id_byte (sanitize_from skip s) ≡ true
unfolding sanitize_from
sanitize_from-id_bytes skip [] = refl
sanitize_from-id_bytes (suc k) (c ∷ s) = sanitize_from-id_bytes k s
sanitize_from-id_bytes zero (c ∷ s) = ground (
  arith,
  sanitize_byte-id_byte c,
  sanitize_from-id_bytes (elim (rune_width c s) [ none ↦ 0 | some w ↦ w - 1 ]) s,
)

pub sanitize-id_bytes : (s : Text) → all is_id_byte (sanitize s) ≡ true
unfolding sanitize
sanitize-id_bytes s = sanitize_from-id_bytes 0 s

valid-dm_id : (a b : Text) → valid_conversation_id (dm_id (sanitize a) (sanitize b)) ≡ true
unfolding valid_conversation_id text_eq cut_prefix
valid-dm_id a b = ground (
  arith,
  all-append is_id_byte (sanitize a) (b'_' ∷ sanitize b),
  sanitize-id_bytes a,
  sanitize-id_bytes b,
  is_empty-append (sanitize a) b'_' (sanitize b),
)

valid-bare : (dst : Text) → valid_conversation_id (bare dst) ≡ true
unfolding valid_conversation_id text_eq cut_prefix bare sanitize sanitize_from is_numeric
valid-bare [] = refl
valid-bare (c ∷ dst) = ground (arith, sanitize-id_bytes (c ∷ dst))

-- A message is filed under an identifier that passes `ValidConversationID`, unless it is a direct
-- message, a callsign is set, and neither end has the base call of that callsign: then the
-- identifier is empty.
pub conversation_id-valid :
    (src dst my : Text)
    → (valid_conversation_id (conversation_id src dst my) ≡ true)
      ⊎ ((conversation_id src dst my ≡ [])
          × (is_dm dst ≡ true)
          × (my ≢ [])
          × (base_call (origin src) ≢ base_call my)
          × (base_call (to_upper dst) ≢ base_call my))
unfolding is_foreign
conversation_id-valid src dst my =
    let mine = base_call my in
    let peer = interlocutor (origin src) (to_upper dst) mine in
    ground (
      arith,
      conversation_id-rows src dst my,
      valid-bare dst,
      valid-dm_id mine peer,
      text_eq_iff my [],
      text_eq_iff (base_call (origin src)) mine,
      text_eq_iff (base_call (to_upper dst)) mine,
    )

text_eq-append : (s : Text) (c : ℕ) (t : Text) → text_eq (s ++ (c ∷ t)) [] ≡ false
unfolding text_eq
text_eq-append [] c t = refl
text_eq-append (d ∷ s) c t = refl

-- The devices of one operator share their threads: a numeric SSID of the local callsign does not
-- show in the identifier, whatever the message.
pub conversation_id-ssid :
    (src dst b d e : Text)
    → is_numeric d ≡ true
    → is_numeric e ≡ true
    → conversation_id src dst (b ++ (b'-' ∷ d)) ≡ conversation_id src dst (b ++ (b'-' ∷ e))
conversation_id-ssid src dst b d e h k =
    rw (conversation_id-rows, conversation_id-rows, base_call-append b d h, base_call-append b e k)
      (ground (arith, text_eq-append b b'-' d, text_eq-append b b'-' e))

lacks_comma : (s : Text) → all is_call_byte s ≡ true → lacks b',' s ≡ true
lacks_comma [] h = refl
lacks_comma (c ∷ s) h = ground (arith, lacks_comma s)

-- Both directions of a conversation with another station are filed in one thread, also where the
-- incoming source carries relays behind a comma, in any spelling of the peer's call.
pub conversation_id-both_ways :
    (me peer src : Text)
    → IsCallsign me
    → is_dm me ≡ true
    → is_dm peer ≡ true
    → before b',' src ≡ peer
    → base_call (to_upper peer) ≢ base_call me
    → (conversation_id me peer me ≡ dm_id (sanitize (base_call me)) (sanitize (to_upper peer)))
      × (conversation_id src me me ≡ conversation_id me peer me)
unfolding origin is_foreign interlocutor
conversation_id-both_ways me peer src c hm hp b ne =
    let lone = before-lacks b',' me (lacks_comma me (IsCallsign-call_bytes c)) in
    let call = base_call me in
    ground (
      arith,
      conversation_id-rows me peer me,
      conversation_id-rows src me me,
      lone,
      IsCallsign-to_upper c,
      text_eq_ne me [] (IsCallsign-ne-nil c),
      text_eq_refl call,
      text_eq_ne (base_call (to_upper peer)) call ne,
    )
