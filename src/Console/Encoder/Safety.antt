-- ===== src/Console/Encoder/Safety.antt =====
-- internal/consolecodec/encoder.go: what the encoder lets through to the console of the node.
use gomeshcom_client.Prelude.{
  ◌≤◌, ◌≡◌, refl, ap, ◌∙◌, sym, true, false, inl, inr, [], ◌∷◌, ◌++◌, Option, some, arith,
  Bool-cases, all, all-append, length, length-append, not, ltb,
}
use gomeshcom_client.Text.{Text, codes, is_digit, to_upper, trim_space, text_eq}
use gomeshcom_client.Text.Search.{text_eq_refl, text_eq_ne}
use gomeshcom_client.Callsign.{normalize, is_valid}
use gomeshcom_client.Callsign.Grammar.{IsCallsign, match_pattern-IsCallsign}
use gomeshcom_client.Callsign.Normal.{
  is_call_byte, IsCallsign-call_bytes, IsCallsign-normalize, normalize_idem,
}
use gomeshcom_client.Console.Decimal.{decimal, string_id}
use gomeshcom_client.Console.Decimal.RoundTrip.{string_id-decimal}
use gomeshcom_client.Console.Encoder.{
  self_direct_message, ok, err, >>=-eq-ok, encode_valid, TextCommand, is_separator, is_clean,
  is_decimal, is_local_callsign, braced, encode_channel, encode_destination, frame, encode,
  max_firmware_payload_bytes,
}

digits-is_clean : (s : Text) → all is_digit s ≡ true → is_clean s ≡ true
digits-is_clean [] h = refl
digits-is_clean (c ∷ s) h = ground (arith, digits-is_clean s)

call_bytes-is_clean : (s : Text) → all is_call_byte s ≡ true → is_clean s ≡ true
call_bytes-is_clean [] h = refl
call_bytes-is_clean (c ∷ s) h = ground (arith, call_bytes-is_clean s)

braced-is_clean : (s : Text) → is_clean s ≡ true → is_clean (braced s) ≡ true
braced-is_clean s h = ground (arith, all-append (λ c. not (is_separator c)) s (b'}' ∷ []))

-- A text that normalizes to a callsign, where it is its own normal form.
valid-is_clean : (s : Text) → is_valid s ≡ true → normalize s ≡ s → is_clean s ≡ true
unfolding is_valid
valid-is_clean s v n =
    call_bytes-is_clean s (IsCallsign-call_bytes ((match_pattern-IsCallsign s).0 (rw n at v)))

encode_channel-is_clean : (s d : Text) → encode_channel s ≡ ok d → is_clean d ≡ true
unfolding encode_channel
encode_channel-is_clean s d h =
    let t = string_id (decimal s) in
    ground (arith, braced-is_clean t, digits-is_clean t, string_id-decimal (decimal s))

encode_destination-is_clean :
    (identity : Option Text) (s d : Text) → encode_destination identity s ≡ ok d → is_clean d ≡ true
unfolding encode_destination normalize
encode_destination-is_clean identity s d h =
    let n = to_upper (trim_space s) in
    ground (
      arith,
      encode_channel-is_clean n d,
      valid-is_clean n,
      (normalize_idem s).0,
      braced-is_clean n,
    )

-- What the frame is built round.
pub record IsCommand (bytes : Text) : Type 0 where
  pub content : Text
  pub framed : bytes ≡ codes "::" ++ (content ++ (b'\r' ∷ b'\n' ∷ []))
  pub clean : is_clean content ≡ true
  pub fits : length content ≤ max_firmware_payload_bytes

frame-IsCommand : (p bytes : Text) → is_clean p ≡ true → frame p ≡ ok bytes → IsCommand bytes
unfolding frame
frame-IsCommand p bytes c h = elim (Bool-cases (ltb max_firmware_payload_bytes (length p))) [
  | inl long ↦ absurd (ground arith)
  | inr short ↦ record { content = p; framed = ground arith; clean = c; fits = ground arith }
]

encode_valid-IsCommand :
    (identity : Option Text) (command : TextCommand) (bytes : Text)
    → encode_valid identity command ≡ ok bytes
    → IsCommand bytes
unfolding encode_valid
encode_valid-IsCommand identity command bytes h = elim (Bool-cases (is_clean command.message)) [
  | inl clean ↦
      let later = rw clean at h in
      let (d, first, last) =
        >>=-eq-ok (encode_destination identity command.destination)
          (λ d. frame (d ++ command.message)) later in
      frame-IsCommand (d ++ command.message) bytes
        (rw all-append
          (rw (encode_destination-is_clean identity command.destination d first, clean)))
        last
  | inr dirty ↦ absurd (ground arith)
]

-- Whatever the destination and the message, what the encoder returns is one command: two colons,
-- at most 160 bytes with no carriage return, newline or NUL among them, and one line end.
pub encode-IsCommand :
    (identity : Option Text) (command : TextCommand) (bytes : Text)
    → encode identity command ≡ ok bytes
    → IsCommand bytes
unfolding encode
encode-IsCommand identity command bytes h =
    encode_valid-IsCommand identity command bytes (ground arith)

star-ne : {s : Text} → IsCallsign s → text_eq s (codes "*") ≡ false
star-ne {s} c =
    text_eq_ne s (codes "*")
      λ e. ground (arith, ap length (sym c.splits ∙ e), length-append c.base c.ssid)

-- An operator with a callsign cannot send to that callsign, in any spelling of the destination.
pub encode_destination_self :
    (me destination : Text)
    → IsCallsign me
    → is_decimal me ≡ false
    → normalize destination ≡ me
    → encode_destination (some me) destination ≡ err self_direct_message
unfolding encode_destination is_local_callsign normalize
encode_destination_self me destination c d e =
    let (n, v) = IsCallsign-normalize c in ground (arith, n, v, text_eq_refl me, star-ne c)

-- A destination that is accepted as a channel is sent without leading zeros, between braces, as a
-- number from 1 to 99999 that reads back as the one that was written.
pub encode_channel-decimal :
    (s d : Text)
    → encode_channel s ≡ ok d
    → (d ≡ braced (string_id (decimal s)))
      × (decimal (string_id (decimal s)) ≡ decimal s)
      × (1 ≤ decimal s)
      × (decimal s ≤ 99999)
unfolding encode_channel
encode_channel-decimal s d h = ground (arith, string_id-decimal (decimal s))
