-- ===== src/Chatlog/Routing.antt =====
-- internal/chatlog/chatlog.go: where a message is filed, without the detour over file names.
use gomeshcom_client.Prelude.{
  ◌≡◌, refl, not, ◌||◌, [], ◌∷◌, ◌++◌, arith, if◌then◌else◌, append_assoc,
}
use gomeshcom_client.Text.{Text, text_eq, to_upper, trim_suffix}
use gomeshcom_client.Text.Search.{trim_suffix-append}
use gomeshcom_client.Chatlog.Ids.{
  dm_prefix, public_prefix, broadcast_id, jsonl, star, is_numeric, is_dm, sanitize, base_call,
  filename, origin, is_foreign, interlocutor, filename_for_msg, conversation_id, status_key,
}

-- The identifier of a direct conversation.
abbrev pub dm_id : Text → Text → Text
dm_id mine peer = dm_prefix ++ (mine ++ (b'_' ∷ peer))

-- A file name without its suffix.
unfoldable pub bare : Text → Text
unfolding is_numeric text_eq
bare dst =
    if text_eq dst [] || text_eq dst star
    then broadcast_id
    else if is_numeric dst
    then public_prefix ++ dst
    else dm_prefix ++ sanitize dst

pub trim_suffix-filename : (dst : Text) → trim_suffix jsonl (filename dst) ≡ bare dst
unfolding filename bare
trim_suffix-filename dst = ground (
  arith,
  trim_suffix-append jsonl broadcast_id,
  trim_suffix-append jsonl (public_prefix ++ dst),
  trim_suffix-append jsonl (dm_prefix ++ sanitize dst),
)

trim_suffix-dm_id :
    (mine peer : Text)
    → trim_suffix jsonl (dm_prefix ++ (mine ++ (b'_' ∷ (peer ++ jsonl)))) ≡ dm_id mine peer
trim_suffix-dm_id mine peer =
    rw (← append_assoc mine (b'_' ∷ peer) jsonl) (trim_suffix-append jsonl (dm_id mine peer))

pub trim_suffix-nil : trim_suffix jsonl [] ≡ []
unfolding trim_suffix
trim_suffix-nil = refl

pub conversation_id-rows :
    (src dst my : Text)
    → conversation_id src dst my ≡ (
        if not (is_dm dst)
        then bare dst
        else if text_eq my []
        then bare dst
        else if is_foreign (origin src) (to_upper dst) (base_call my)
        then []
        else dm_id
            (sanitize (base_call my))
            (sanitize (interlocutor (origin src) (to_upper dst) (base_call my))))
unfolding conversation_id filename_for_msg
conversation_id-rows src dst my =
    let mine = sanitize (base_call my) in
    let peer = sanitize (interlocutor (origin src) (to_upper dst) (base_call my)) in
    ground (arith, trim_suffix-filename dst, trim_suffix-nil, trim_suffix-dm_id mine peer)

pub status_key-rows :
    (src dst my : Text)
    → status_key src dst my ≡ (
        if not (is_dm dst)
        then bare dst
        else if text_eq my []
        then []
        else if is_foreign (origin src) (to_upper dst) (base_call (to_upper my))
        then []
        else dm_id
            (sanitize (to_upper my))
            (sanitize (interlocutor (origin src) (to_upper dst) (base_call (to_upper my)))))
unfolding status_key
status_key-rows src dst my = ground (arith, trim_suffix-filename dst)
