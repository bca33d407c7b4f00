-- ===== src/Meshcom/Outgoing.antt =====
-- internal/meshcom/packet.go: `ValidateOutgoingText`, `NewOutgoingText` and `SplitSourcePath`.
use gomeshcom_client.Prelude.{
  ℕ, not, List, [], ◌∷◌, Option, none, some, is_empty, if◌then◌else◌, ltb,
}
use gomeshcom_client.Text.{Text, trim_space, split}
use gomeshcom_client.Meshcom.Utf8.{valid_string, rune_count}

pub data TextError : Type 0 where
  destination_required message_required invalid_utf8 : TextError
  too_long : ℕ → TextError

-- `none` is the nil error.
unfoldable pub validate_outgoing_text : Text → Text → ℕ → Option TextError
validate_outgoing_text destination message max_length =
    if is_empty (trim_space destination)
    then some destination_required
    else if is_empty message
    then some message_required
    else if not (valid_string message)
    then some invalid_utf8
    else if ltb max_length (rune_count message)
    then some (too_long max_length)
    else none

pub record OutgoingText : Type 0 where
  pub destination : Text
  pub message : Text

pub data Outgoing : Type 0 where
  ok : OutgoingText → Outgoing
  err : TextError → Outgoing

unfoldable pub new_outgoing_text : Text → Text → ℕ → Outgoing
new_outgoing_text destination message max_length =
    elim (validate_outgoing_text destination message max_length) [
      | some e ↦ err e
      | none ↦ ok (record { destination = destination; message = message })
    ]

-- The loop over `parts[1:]`: the parts that are not blank.
unfoldable pub relays : List Text → List Text
relays [] = []
relays (part ∷ parts) =
    let relay = trim_space part in
    let rest = relays parts in if is_empty relay then rest else relay ∷ rest

-- `SplitSourcePath`; `split` never returns an empty list.
unfoldable pub split_path : List Text → Text × List Text
split_path [] = ([], [])
split_path (part ∷ parts) = (trim_space part, relays parts)

unfoldable pub split_source_path : Text → Text × List Text
split_source_path source = split_path (split b',' source)
