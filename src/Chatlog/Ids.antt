-- ===== src/Chatlog/Ids.antt =====
-- internal/chatlog/chatlog.go: the identifiers of conversations.
use gomeshcom_client.Prelude.{
  ℕ, zero, suc, ◌-◌, Bool, false, not, ◌&&◌, ◌||◌, [], ◌∷◌, ◌++◌, none, some, all, is_empty, take,
  drop, if◌then◌else◌, ◌==◌,
}
use gomeshcom_client.Text.{
  Text, codes, text_eq, within, is_digit, upper, to_upper, cut_prefix, has_prefix, trim_prefix,
  trim_suffix, index, last_index, before,
}
use gomeshcom_client.Meshcom.Utf8.{rune_width}

abbrev pub dm_prefix : Text
dm_prefix = codes "DM_"

abbrev pub public_prefix : Text
public_prefix = codes "P_"

abbrev pub broadcast_id : Text
broadcast_id = codes "P_broadcast"

abbrev pub jsonl : Text
jsonl = codes ".jsonl"

abbrev pub star : Text
star = codes "*"

unfoldable pub is_numeric : Text → Bool
is_numeric s = all is_digit s && not (is_empty s)

unfoldable pub is_dm : Text → Bool
is_dm dst = not (text_eq dst []) && (not (text_eq dst star) && not (is_numeric dst))

-- The class [A-Za-z0-9_-], whose complement `unsafeChars` replaces.
abbrev pub is_safe : ℕ → Bool
is_safe c = within b'A' b'Z' c || within b'a' b'z' c || is_digit c || c == b'_' || c == b'-'

unfoldable pub sanitize_byte : ℕ → ℕ
sanitize_byte c = upper (if is_safe c then c else b'_')

-- The expression of `unsafeChars` matches runes, and a byte that starts none counts as one. `skip`
-- bytes are left of a rune that has been replaced.
unfoldable pub sanitize_from : ℕ → Text → Text
sanitize_from skip [] = []
sanitize_from (suc k) (c ∷ s) = sanitize_from k s
sanitize_from zero (c ∷ s) =
    sanitize_byte c ∷ sanitize_from (elim (rune_width c s) [ none ↦ 0 | some w ↦ w - 1 ]) s

unfoldable pub sanitize : Text → Text
sanitize s = sanitize_from 0 s

unfoldable pub base_call : Text → Text
base_call callsign = elim (last_index b'-' callsign) [
  | some i ↦ if is_numeric (drop (suc i) callsign) then take i callsign else callsign
  | none ↦ callsign
]

unfoldable pub filename : Text → Text
filename dst =
    if text_eq dst [] || text_eq dst star
    then broadcast_id ++ jsonl
    else if is_numeric dst
    then public_prefix ++ (dst ++ jsonl)
    else dm_prefix ++ (sanitize dst ++ jsonl)

-- `strings.ToUpper(strings.SplitN(src, ",", 2)[0])`
unfoldable pub origin : Text → Text
origin src = to_upper (before b',' src)

-- Neither end of the message has the operator's base call.
unfoldable pub is_foreign : Text → Text → Text → Bool
is_foreign source dst_upper my_base =
    not (text_eq (base_call source) my_base) && not (text_eq (base_call dst_upper) my_base)

unfoldable pub interlocutor : Text → Text → Text → Text
interlocutor source dst_upper my_base =
    if text_eq (base_call dst_upper) my_base then source else dst_upper

unfoldable pub filename_for_msg : Text → Text → Text → Text
filename_for_msg src dst my_call =
    if not (is_dm dst)
    then filename dst
    else if text_eq my_call []
    then filename dst
    else if is_foreign (origin src) (to_upper dst) (base_call my_call)
    then []
    else dm_prefix
      ++ (sanitize (base_call my_call)
          ++ (b'_'
              ∷ (sanitize (interlocutor (origin src) (to_upper dst) (base_call my_call)) ++ jsonl)))

unfoldable pub conversation_id : Text → Text → Text → Text
conversation_id src dst my_call = trim_suffix jsonl (filename_for_msg src dst my_call)

unfoldable pub status_key : Text → Text → Text → Text
status_key src dst my_call =
    let my = to_upper my_call in
    if not (is_dm dst)
    then trim_suffix jsonl (filename dst)
    else if text_eq my_call []
    then []
    else if is_foreign (origin src) (to_upper dst) (base_call my)
    then []
    else dm_prefix
      ++ (sanitize my
          ++ (b'_' ∷ sanitize (interlocutor (origin src) (to_upper dst) (base_call my))))

unfoldable pub file_id_for_api_id : Text → Text
file_id_for_api_id id =
    let rest = drop 3 id in
    if not (has_prefix dm_prefix id) then id else elim (index b'_' rest) [
      | none ↦ id
      | some i ↦ dm_prefix ++ (sanitize (base_call (take i rest)) ++ (b'_' ∷ drop (suc i) rest))
    ]

unfoldable pub dm_peer : Text → Text
dm_peer id =
    let rest = drop 3 id in
    if not (has_prefix dm_prefix id)
    then []
    else elim (index b'_' rest) [ none ↦ rest | some i ↦ drop (suc i) rest ]

unfoldable pub record_matches_ssid : Text → Text → Text → Bool
record_matches_ssid src dst ssid =
    text_eq (origin src) (to_upper ssid) || text_eq (to_upper dst) (to_upper ssid)

-- The class [A-Z0-9_-].
abbrev pub is_id_byte : ℕ → Bool
is_id_byte c = within b'A' b'Z' c || is_digit c || c == b'_' || c == b'-'

-- `validID.MatchString`: P_broadcast, P_ and digits, or DM_ and bytes of the class.
unfoldable pub valid_conversation_id : Text → Bool
valid_conversation_id id =
    text_eq id broadcast_id
    || elim (cut_prefix public_prefix id) [ none ↦ false | some s ↦ is_numeric s ]
    || elim (cut_prefix dm_prefix id) [
      | none ↦ false
      | some s ↦ all is_id_byte s && not (is_empty s)
    ]

pub data PublicKind : Type 0 where
  broadcast : PublicKind
  channel : Text → PublicKind

unfoldable pub public_kind : Text → PublicKind
public_kind id =
    if text_eq id broadcast_id then broadcast else channel (trim_prefix public_prefix id)
