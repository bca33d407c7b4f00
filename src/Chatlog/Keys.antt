-- ===== src/Chatlog/Keys.antt =====
-- internal/chatlog/chatlog.go: the key of the read state beside the identifier of the stored
-- conversation.
use gomeshcom_client.Prelude.{
  ◌+◌, ◌≡◌, ◌≢◌, refl, ap, ◌∙◌, sym, true, false, [], ◌∷◌, arith, all, length, length-append,
  take-append,
}
use gomeshcom_client.Text.{Text, has_prefix, upper, to_upper, cut_prefix}
use gomeshcom_client.Text.Search.{text_eq_ne, lacks, index-append, drop-suc-append}
use gomeshcom_client.Callsign.Grammar.{IsCallsign}
use gomeshcom_client.Callsign.Normal.{is_call_byte, IsCallsign-call_bytes, IsCallsign-to_upper}
use gomeshcom_client.Meshcom.Utf8.{rune_width}
use gomeshcom_client.Chatlog.Ids.{
  is_dm, sanitize_byte, sanitize_from, sanitize, base_call, origin, interlocutor, conversation_id,
  status_key, file_id_for_api_id, dm_peer,
}
use gomeshcom_client.Chatlog.Routing.{dm_id, bare, conversation_id-rows, status_key-rows}

pub sanitize-call_bytes : (s : Text) → all is_call_byte s ≡ true → sanitize s ≡ s
unfolding sanitize sanitize_from sanitize_byte rune_width upper
sanitize-call_bytes [] h = refl
sanitize-call_bytes (c ∷ s) h = ground (arith, sanitize-call_bytes s)

pub lacks-call_bytes : (s : Text) → all is_call_byte s ≡ true → lacks b'_' s ≡ true
lacks-call_bytes [] h = refl
lacks-call_bytes (c ∷ s) h = ground (arith, lacks-call_bytes s)

pub IsCallsign-ne-nil : {s : Text} → IsCallsign s → s ≢ []
IsCallsign-ne-nil c e =
    let n : length c.base + length c.ssid ≡ 0 =
      sym (length-append c.base c.ssid) ∙ ap length (sym c.splits ∙ e) in
    omega arith

-- A caller without `_` is found again in front of the peer.
pub file_id-dm_id :
    (caller peer : Text)
    → lacks b'_' caller ≡ true
    → file_id_for_api_id (dm_id caller peer) ≡ dm_id (sanitize (base_call caller)) peer
unfolding file_id_for_api_id has_prefix cut_prefix
file_id-dm_id caller peer h = ground (
  arith,
  index-append b'_' caller peer h,
  take-append caller (b'_' ∷ peer),
  drop-suc-append b'_' caller peer,
)

pub dm_peer-dm_id :
    (caller peer : Text) → lacks b'_' caller ≡ true → dm_peer (dm_id caller peer) ≡ peer
unfolding dm_peer has_prefix cut_prefix
dm_peer-dm_id caller peer h =
    ground (arith, index-append b'_' caller peer h, drop-suc-append b'_' caller peer)

file_id-bare : (dst : Text) → is_dm dst ≡ false → file_id_for_api_id (bare dst) ≡ bare dst
unfolding file_id_for_api_id bare is_dm has_prefix cut_prefix
file_id-bare dst h = ground arith

file_id-nil : file_id_for_api_id [] ≡ []
unfolding file_id_for_api_id has_prefix cut_prefix
file_id-nil = refl

-- For an operator with a callsign of the grammar, the API identifier under which the read state
-- of a message is kept leads back to the conversation in which the message is stored: on every
-- kind of destination, and on messages that are dropped, where both are empty.
pub file_id-status_key :
    (src dst my : Text)
    → IsCallsign my
    → file_id_for_api_id (status_key src dst my) ≡ conversation_id src dst my
file_id-status_key src dst my c =
    let b = IsCallsign-call_bytes c in
    let peer = sanitize (interlocutor (origin src) (to_upper dst) (base_call my)) in
    rw (status_key-rows, conversation_id-rows, IsCallsign-to_upper c, sanitize-call_bytes my b)
      (ground (
        arith,
        file_id-bare dst,
        text_eq_ne my [] (IsCallsign-ne-nil c),
        file_id-dm_id my peer (lacks-call_bytes my b),
        file_id-nil,
      ))
