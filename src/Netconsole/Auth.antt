-- ===== src/Netconsole/Auth.antt =====
-- internal/netconsole/auth.go: the handshake at the start of a connection.
pub mod Accepted
pub mod Challenge
pub mod Lines
pub mod Writing
use mathlib.Core.Option
use gomeshcom_client.Prelude.{
  ℕ, zero, suc, ◌+◌, ◌-◌, ◌*◌, ◌/◌, ◌%◌, Bool, true, false, not, ◌&&◌, ◌||◌, List, [], ◌∷◌, ◌++◌,
  Option, none, some, is_empty, length, take, drop, if◌then◌else◌, ltb, leb, ◌==◌,
}
use gomeshcom_client.Text.{Text, codes, text_eq, within, is_digit, has_prefix, trim_prefix}

-- The errors of the package. `failed` is an error of the connection, by its number; `cancelled` is
-- that of a context; `out_of_fuel` stands for a write loop that has not ended.
pub data ConsoleError : Type 0 where
  auth_line_too_long malformed_challenge authentication_failed unexpected_auth_line : ConsoleError
  eof unexpected_eof short_write out_of_fuel disconnected cancelled : ConsoleError
  failed : ℕ → ConsoleError

-- An `io.Writer`: for each call, by its number, and its bytes, the count and the error it returns.
abbrev pub Writer : Type 0
Writer = ℕ → Text → ℕ × Option ConsoleError

-- `writeAll` with the bytes sent so far.
unfoldable pub write_loop : ℕ → Writer → ℕ → Text → Text → Text × Option ConsoleError
write_loop fuel w call sent [] = (sent, none)
write_loop zero w call sent (c ∷ raw) = (sent, some out_of_fuel)
write_loop (suc fuel) w call sent (c ∷ raw) =
    let (written, error) = w call (c ∷ raw) in
    let sent' = sent ++ take written (c ∷ raw) in
    let rest = write_loop fuel w (suc call) sent' (drop written (c ∷ raw)) in
    elim error [
      | some e ↦ (sent', some e)
      | none ↦ if written == 0 then (sent', some short_write) else rest
    ]

unfoldable pub write_all : Writer → Text → Text × Option ConsoleError
write_all w raw = write_loop (length raw) w 0 [] raw

-- A line and the bytes behind it, or an error.
pub data Line : Type 0 where
  line : Text → Text → Line
  no_line : ConsoleError → Line

-- `if len(line) > 0 && line[len(line)-1] == '\r' { line = line[:len(line)-1] }`
unfoldable pub strip_return : Text → Text
strip_return [] = []
strip_return (c ∷ s) =
    let rest = strip_return s in if is_empty s && c == b'\r' then [] else c ∷ rest

-- The error of `ReadByte` at the end of the bytes.
unfoldable pub end_error : ConsoleError → Text → ConsoleError
end_error eof acc = if is_empty acc then eof else unexpected_eof
end_error e acc = e

-- The loop of `readBoundedLine` with `line` so far.
unfoldable pub read_onto : ℕ → ConsoleError → Text → Text → Line
read_onto max_bytes ending acc [] = no_line (end_error ending acc)
read_onto max_bytes ending acc (c ∷ input) =
    let rest = read_onto max_bytes ending (acc ++ (c ∷ [])) input in
    if leb max_bytes (length acc)
    then no_line auth_line_too_long
    else if c == b'\n'
    then line (strip_return acc) input
    else rest

unfoldable pub read_bounded_line : ℕ → ConsoleError → Text → Line
read_bounded_line max_bytes ending input = read_onto max_bytes ending [] input

-- `hex.DecodeString` of encoding/hex.
unfoldable pub hex_value : ℕ → Option ℕ
hex_value c =
    if is_digit c
    then some (c - b'0')
    else if within b'a' b'f' c
    then some (c - 87)
    else if within b'A' b'F' c
    then some (c - 55)
    else none

unfoldable pub hex_pair : ℕ → ℕ → Option ℕ
hex_pair a b = elim (hex_value a) [
  | none ↦ none
  | some high ↦ Option.map (λ low. high * 16 + low) (hex_value b)
]

unfoldable pub hex_decode : Text → Option Text
hex_decode [] = some []
hex_decode (a ∷ []) = none
hex_decode (a ∷ b ∷ s) = elim (hex_pair a b) [
  | none ↦ none
  | some byte ↦ Option.map (◌∷◌ byte) (hex_decode s)
]

-- `hex.EncodeToString`
unfoldable pub hex_digit : ℕ → ℕ
hex_digit n = if ltb n 10 then b'0' + n else 87 + n

unfoldable pub hex_encode : Text → Text
hex_encode [] = []
hex_encode (b ∷ s) = hex_digit (b / 16) ∷ hex_digit (b % 16) ∷ hex_encode s

abbrev pub nonce_prefix : Text
nonce_prefix = codes "NONCE: "

-- What the handshake has sent, what it leaves to read, and its error.
pub record Handshake : Type 0 where
  pub sent : Text
  pub rest : Text
  pub error : Option ConsoleError

-- The result line.
unfoldable pub verdict : Text → Option ConsoleError
verdict result =
    if text_eq result (codes "OK")
    then none
    else if text_eq result (codes "FAIL")
    then some authentication_failed
    else some unexpected_auth_line

-- The answer of the node to the response.
unfoldable pub read_verdict : ℕ → ConsoleError → Text → Text → Handshake
read_verdict max_bytes ending sent input = elim (read_bounded_line max_bytes ending input) [
  | no_line e ↦ record { sent = sent; rest = []; error = some e }
  | line result after ↦ record { sent = sent; rest = after; error = verdict result }
]

-- `hmac` is HMAC-SHA256 of crypto/hmac, at a key and a message. `deadline` is what `SetDeadline`
-- returns, and `ending` what the reader returns after `input`.
module _ (hmac : Text → Text → Text) where
  unfoldable pub hmac_response : Text → Text → Option Text
  hmac_response password nonce_hex =
      if not (length nonce_hex == 32) then none else elim (hex_decode nonce_hex) [
        | none ↦ none
        | some nonce ↦
            if not (length nonce == 16) then none else some (hex_encode (hmac password nonce))
      ]

  -- The response to a nonce, and the answer to it.
  unfoldable pub respond : Text → Writer → ℕ → ConsoleError → Text → Text → Handshake
  respond password w max_bytes ending nonce_hex input = elim (hmac_response password nonce_hex) [
    | none ↦ record { sent = []; rest = input; error = some malformed_challenge }
    | some response ↦
        let (sent, error) = write_all w (response ++ codes "\r\n") in
        elim error [
          | some e ↦ record { sent = sent; rest = input; error = some e }
          | none ↦ read_verdict max_bytes ending sent input
        ]
  ]

  unfoldable pub greet : Text → Writer → ℕ → ConsoleError → Text → Text → Handshake
  greet password w max_bytes ending greeting input =
      if text_eq greeting (codes "OK")
      then record { sent = []; rest = input; error = none }
      else if not (has_prefix nonce_prefix greeting)
      then record { sent = []; rest = input; error = some unexpected_auth_line }
      else respond password w max_bytes ending (trim_prefix nonce_prefix greeting) input

  unfoldable pub authenticate :
      Option ConsoleError → Text → Writer → ℕ → ConsoleError → Text → Handshake
  authenticate deadline password w max_bytes ending input = elim deadline [
    | some e ↦ record { sent = []; rest = input; error = some e }
    | none ↦ elim (read_bounded_line max_bytes ending input) [
      | no_line e ↦ record { sent = []; rest = []; error = some e }
      | line greeting after ↦ greet password w max_bytes ending greeting after
    ]
  ]
