-- ===== src/Tests/Chats.antt =====
-- internal/chatlog at concrete messages.
use gomeshcom_client.Prelude.{◌≡◌, ◌≢◌, ◌⊎◌, refl, true, [], arith}
use gomeshcom_client.Text.{
  Text, codes, upper, to_upper, before, last_index, index, text_eq, cut_prefix, has_prefix,
  trim_suffix,
}
use gomeshcom_client.Text.Search.{ne_of_text_eq}
use gomeshcom_client.Callsign.Grammar.{IsCallsign, one}
use gomeshcom_client.Meshcom.Utf8.{rune_width}
use gomeshcom_client.Chatlog.Ids.{
  is_numeric, is_dm, sanitize_byte, sanitize_from, sanitize, base_call, filename, origin,
  is_foreign, interlocutor, filename_for_msg, conversation_id, status_key, file_id_for_api_id,
  dm_peer, valid_conversation_id,
}
use gomeshcom_client.Chatlog.Keys.{file_id-status_key}
use gomeshcom_client.Chatlog.Threads.{conversation_id-valid}

program : Unit {0}
unfolding upper to_upper before last_index index text_eq cut_prefix has_prefix trim_suffix
    is_numeric is_dm sanitize_byte sanitize_from rune_width sanitize base_call filename origin
    is_foreign interlocutor filename_for_msg conversation_id status_key file_id_for_api_id dm_peer
    valid_conversation_id
program = tt

abbrev me : Text
me = codes "IU5PMP-1"

abbrev peer : Text
peer = codes "ik5fck-10"

abbrev src : Text
src = codes "ik5fck-10,IZ1ABC-2"

me-IsCallsign : IsCallsign me
me-IsCallsign = record {
  base = codes "IU5PMP";
  ssid = codes "-1";
  splits = refl;
  alnum = refl;
  at_least = omega arith;
  at_most = omega arith;
  suffix = one b'1' refl;
}

ids :
    (conversation_id src me me ≡ codes "DM_IU5PMP_IK5FCK-10")
    × (status_key src me me ≡ codes "DM_IU5PMP-1_IK5FCK-10")
    × (conversation_id src (codes "*") me ≡ codes "P_broadcast")
    × (conversation_id src (codes "222") me ≡ codes "P_222")
    × (conversation_id src (codes "OE1XYZ") me ≡ [])
    × (dm_peer (codes "DM_IU5PMP-1_IK5FCK-10") ≡ codes "IK5FCK-10")
    × (base_call (codes "IU5PMP-X") ≡ codes "IU5PMP-X")
unfolding program
ids = (refl, refl, refl, refl, refl, refl, refl)

file_id-status_key_example : file_id_for_api_id (status_key src me me) ≡ conversation_id src me me
file_id-status_key_example = file_id-status_key src me me me-IsCallsign

conversation_id-valid_example :
    (valid_conversation_id (conversation_id src me me) ≡ true)
    ⊎ ((conversation_id src me me ≡ [])
        × (is_dm me ≡ true)
        × (me ≢ [])
        × (base_call (origin src) ≢ base_call me)
        × (base_call (to_upper me) ≢ base_call me))
conversation_id-valid_example = conversation_id-valid src me me

calls_differ : base_call (to_upper peer) ≢ base_call me
unfolding program
calls_differ = ne_of_text_eq (base_call (to_upper peer)) (base_call me) refl
