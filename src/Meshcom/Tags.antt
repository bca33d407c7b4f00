-- ===== src/Meshcom/Tags.antt =====
-- internal/meshcom/packet.go and internal/chatlog/chatlog.go: the regular expressions for
-- acknowledgements, rejections and sequence numbers, as matchers on the bytes of a message.
use gomeshcom_client.Prelude.{
  ℕ, Bool, true, false, not, ◌&&◌, ◌||◌, [], ◌∷◌, Option, none, some, all, is_empty, if◌then◌else◌,
  ◌==◌,
}
use gomeshcom_client.Text.{Text, codes, within, is_digit, lower}

-- `\w`
abbrev pub is_word : ℕ → Bool
is_word c = within b'A' b'Z' c || within b'a' b'z' c || is_digit c || c == b'_'

-- `\s` of RE2: \t \n \f \r and the blank.
abbrev pub is_re_space : ℕ → Bool
is_re_space c = within 9 10 c || within 12 13 c || c == 32

-- `[:\s]`
abbrev pub is_anchor : ℕ → Bool
is_anchor c = c == b':' || is_re_space c

-- The longest run of digits, and what stands behind it.
unfoldable pub digits : Text → Text
digits [] = []
digits (c ∷ s) = let rest = digits s in if is_digit c then c ∷ rest else []

unfoldable pub after_digits : Text → Text
after_digits [] = []
after_digits (c ∷ s) = let rest = after_digits s in if is_digit c then rest else c ∷ s

abbrev pub starts_word : Text → Bool
starts_word [] = false
starts_word (c ∷ s) = is_word c

-- `(\d+)\b`: a digit is a word byte, so only the longest run can end at a boundary.
unfoldable pub match_number : Text → Option Text
match_number s =
    if is_empty (digits s) || starts_word (after_digits s) then none else some (digits s)

-- A literal in any case, `(?i)`.
unfoldable pub cut_fold : Text → Text → Option Text
cut_fold [] s = some s
cut_fold (p ∷ ps) [] = none
cut_fold (p ∷ ps) (c ∷ s) = if p == lower c then cut_fold ps s else none

-- The literal and a number.
unfoldable pub match_tag : Text → Text → Option Text
match_tag tag s = elim (cut_fold tag s) [ none ↦ none | some rest ↦ match_number rest ]

-- `(?:tag)?(\d+)\b`
unfoldable pub match_optional_tag : Text → Text → Option Text
match_optional_tag tag s = elim (match_tag tag s) [ none ↦ match_number s | some d ↦ some d ]

-- The leftmost match behind an anchor byte.
unfoldable pub search_anchored : (Text → Option Text) → Text → Option Text
search_anchored f [] = none
search_anchored f (c ∷ s) = elim (if is_anchor c then f s else none) [
  | none ↦ search_anchored f s
  | some d ↦ some d
]

-- `(?:^|[:\s])…`: at the start of the text, or behind an anchor byte.
unfoldable pub search_tag : (Text → Option Text) → Text → Option Text
search_tag f s = elim (f s) [ none ↦ search_anchored f s | some d ↦ some d ]

abbrev pub is_some : Option Text → Bool
is_some none = false
is_some (some d) = true

unfoldable pub is_ack_or_reject : Text → Bool
is_ack_or_reject msg =
    is_some (search_tag (match_tag (codes "ack")) msg)
    || is_some (search_tag (match_tag (codes "rej")) msg)

pub data AckStatus : Type 0 where
  ack reject : AckStatus

-- `ackStatusAndSequenceID`; `none` stands for the pair of empty strings.
unfoldable pub ack_status_and_sequence_id : Text → Option (AckStatus × Text)
ack_status_and_sequence_id msg = elim (search_tag (match_tag (codes "rej")) msg) [
  | some d ↦ some (reject, d)
  | none ↦ elim (search_tag (match_optional_tag (codes "ack")) msg) [
    | some d ↦ some (ack, d)
    | none ↦ none
  ]
]

-- `\{(\d+)\s*$`: behind the brace digits, and then white space up to the end.
unfoldable pub match_sequence : Text → Option Text
match_sequence s =
    if not (is_empty (digits s)) && all is_re_space (after_digits s) then some (digits s) else none

unfoldable pub message_sequence_id : Text → Text
message_sequence_id [] = []
message_sequence_id (c ∷ s) = elim (if c == b'{' then match_sequence s else none) [
  | some d ↦ d
  | none ↦ message_sequence_id s
]
