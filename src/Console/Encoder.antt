-- ===== src/Console/Encoder.antt =====
-- internal/consolecodec/encoder.go: `Encoder`.
pub mod Safety
use gomeshcom_client.Prelude.{
  ℕ, ◌+◌, ◌^◌, Bool, true, false, not, ◌&&◌, ◌||◌, List, [], ◌∷◌, ◌++◌, ◌≡◌, refl, Option, none,
  some, all, is_empty, length, if◌then◌else◌, ltb, leb, ◌==◌,
}
use gomeshcom_client.Text.{Text, codes, text_eq, is_digit, to_upper, trim_space}
use gomeshcom_client.Callsign.{normalize, is_valid}
use gomeshcom_client.Meshcom.Outgoing.{TextError, validate_outgoing_text}
use gomeshcom_client.Console.Decimal.{decimal, string_id}

abbrev pub max_firmware_payload_bytes : ℕ
max_firmware_payload_bytes = 160

pub data EncodeError : Type 0 where
  invalid_text : TextError → EncodeError
  command_injection invalid_destination self_direct_message : EncodeError
  payload_too_long : ℕ → EncodeError

pub data Result : Type 0 where
  ok : Text → Result
  err : EncodeError → Result

infixl 5 ◌>>=◌
abbrev pub ◌>>=◌ : Result → (Text → Result) → Result
ok a >>= f = f a
err e >>= f = err e

pub >>=-eq-ok :
    (m : Result) (f : Text → Result) {b : Text}
    → (m >>= f) ≡ ok b
    → (a : Text) × (m ≡ ok a) × (f a ≡ ok b)
>>=-eq-ok (ok a) f h = (a, refl, h)
>>=-eq-ok (err e) f h = cc

pub record TextCommand : Type 0 where
  pub destination : Text
  pub message : Text
  pub max_message_runes : ℕ

-- The bytes of "\r\n\x00".
abbrev pub is_separator : ℕ → Bool
is_separator c = c == b'\r' || c == b'\n' || c == 0

-- `strings.ContainsAny(message, "\r\n\x00")`, negated.
abbrev pub is_clean : Text → Bool
is_clean s = all (λ c. not (is_separator c)) s

unfoldable pub is_decimal : Text → Bool
is_decimal s = not (is_empty s) && all is_digit s

-- `isLocalCallsign`; `none` is an encoder with no identity.
unfoldable pub is_local_callsign : Option Text → Text → Bool
is_local_callsign none destination = false
is_local_callsign (some current) destination = text_eq (normalize current) destination

abbrev pub braced : Text → Text
braced s = b'{' ∷ (s ++ (b'}' ∷ []))

-- `strconv.Atoi` fails from 2^63 on, which the range test below refuses all the same.
unfoldable pub encode_channel : Text → Result
encode_channel normalized =
    let channel = decimal normalized in
    if leb (2 ^ 63) channel || ltb channel 1 || ltb 99999 channel
    then err invalid_destination
    else ok (braced (string_id channel))

unfoldable pub encode_destination : Option Text → Text → Result
encode_destination identity destination =
    let normalized = to_upper (trim_space destination) in
    if text_eq normalized (codes "*")
    then ok []
    else if is_decimal normalized
    then encode_channel normalized
    else if not (is_valid normalized)
    then err invalid_destination
    else if is_local_callsign identity normalized
    then err self_direct_message
    else ok (braced normalized)

-- The limit on the payload, and the frame.
unfoldable pub frame : Text → Result
frame payload =
    if ltb max_firmware_payload_bytes (length payload)
    then err (payload_too_long (length payload))
    else ok (codes "::" ++ (payload ++ (b'\r' ∷ b'\n' ∷ [])))

-- `Encode` behind the validation of the text.
unfoldable pub encode_valid : Option Text → TextCommand → Result
encode_valid identity command = if not (is_clean command.message) then err command_injection else do
  destination ← encode_destination identity command.destination
  frame (destination ++ command.message)

unfoldable pub encode : Option Text → TextCommand → Result
encode identity command =
    elim (validate_outgoing_text command.destination command.message command.max_message_runes) [
      | some e ↦ err (invalid_text e)
      | none ↦ encode_valid identity command
    ]
