-- ===== src/Netconsole/Auth/Challenge.antt =====
-- internal/netconsole/auth.go: challenge and response.
use gomeshcom_client.Netconsole.Auth.Lines.{read_bounded_line-line}
use gomeshcom_client.Prelude.{
  not, ◌==◌, ℕ, zero, suc, ◌+◌, ◌/◌, ◌%◌, ◌<◌, ◌≤◌, ◌≡◌, refl, ap, take, drop, Bool, true, [], ◌∷◌,
  ◌++◌, some, none, arith, all, length, ltb,
}
use gomeshcom_client.Text.{Text, codes, text_eq, has_prefix, trim_prefix, cut_prefix}
use gomeshcom_client.Netconsole.Auth.{
  ConsoleError, Writer, write_all, write_loop, authenticate, greet, respond, hmac_response,
  read_verdict, verdict, nonce_prefix, hex_value, hex_digit, hex_pair, hex_decode, hex_encode,
}

hex_value-hex_digit : (n : ℕ) → n < 16 → hex_value (hex_digit n) ≡ some n
unfolding hex_value hex_digit
hex_value-hex_digit n h = ground arith

abbrev pub is_byte : ℕ → Bool
is_byte c = ltb c 256

hex_pair-hex_digit : (b : ℕ) → b < 256 → hex_pair (hex_digit (b / 16)) (hex_digit (b % 16)) ≡ some b
unfolding hex_pair
hex_pair-hex_digit b h = ground (arith, hex_value-hex_digit (b / 16), hex_value-hex_digit (b % 16))

pub hex_decode-hex_encode : (s : Text) → all is_byte s ≡ true → hex_decode (hex_encode s) ≡ some s
unfolding hex_decode hex_encode
hex_decode-hex_encode [] h = refl
hex_decode-hex_encode (b ∷ s) h = ground (arith, hex_pair-hex_digit b, hex_decode-hex_encode s)

hex_digit-bounds : (n : ℕ) → n < 16 → (48 ≤ hex_digit n) × (hex_digit n < 103)
unfolding hex_digit
hex_digit-bounds n h = ground arith

hex_encode-length : (s : Text) → length (hex_encode s) ≡ length s + length s
unfolding hex_encode
hex_encode-length [] = omega arith
hex_encode-length (b ∷ s) = omega (arith, hex_encode-length s)

abbrev has_no_newline : Text → Bool
has_no_newline s = all (λ c. not (c == b'\n')) s

hex_encode-lacks : (s : Text) → all is_byte s ≡ true → has_no_newline (hex_encode s) ≡ true
unfolding hex_encode
hex_encode-lacks [] h = refl
hex_encode-lacks (b ∷ s) h =
    ground (arith, hex_digit-bounds (b / 16), hex_digit-bounds (b % 16), hex_encode-lacks s)

-- The writer takes what it is given.
abbrev pub TakesAll : Writer → Type 0
TakesAll w = (call : ℕ) (raw : Text) → ((w call raw).0 ≡ length raw) × ((w call raw).1 ≡ none)

take_all : (s : Text) → take (length s) s ≡ s
take_all [] = refl
take_all (c ∷ s) = ap (◌∷◌ c) (take_all s)

drop_all : (s : Text) → drop (length s) s ≡ []
drop_all [] = refl
drop_all (c ∷ s) = drop_all s

write_loop-nil :
    (fuel : ℕ) (w : Writer) (call : ℕ) (sent : Text) → write_loop fuel w call sent [] ≡ (sent, none)
unfolding write_loop
write_loop-nil zero w call sent = refl
write_loop-nil (suc fuel) w call sent = refl

write_all-all : (w : Writer) (raw : Text) → TakesAll w → write_all w raw ≡ (raw, none)
unfolding write_all write_loop
write_all-all w [] t = refl
write_all-all w (c ∷ raw) t =
    let (count, ok) = t 0 (c ∷ raw) in
    rw (ok, count, take_all raw, drop_all raw, write_loop-nil (length raw) w 1 (c ∷ raw))
      (ground arith)

module _ (hmac : Text → Text → Text) (password : Text) (w : Writer) (max_bytes : ℕ)
    (ending : ConsoleError) where
  greet-nonce :
      (s input : Text)
      → greet hmac password w max_bytes ending (nonce_prefix ++ s) input
        ≡ respond hmac password w max_bytes ending s input
  unfolding greet text_eq has_prefix trim_prefix cut_prefix
  greet-nonce s input = refl

  hmac_response-nonce :
      (nonce : Text)
      → length nonce ≡ 16
      → all is_byte nonce ≡ true
      → hmac_response hmac password (hex_encode nonce) ≡ some (hex_encode (hmac password nonce))
  unfolding hmac_response
  hmac_response-nonce nonce n b =
      ground (arith, hex_encode-length nonce, hex_decode-hex_encode nonce b)

  respond-nonce :
      (nonce result rest : Text)
      → length nonce ≡ 16
      → all is_byte nonce ≡ true
      → has_no_newline result ≡ true
      → length result + 2 ≤ max_bytes
      → TakesAll w
      → respond hmac password w max_bytes ending
          (hex_encode nonce)
          (result ++ (b'\r' ∷ b'\n' ∷ rest))
        ≡ record {
          sent = hex_encode (hmac password nonce) ++ codes "\r\n";
          rest = rest;
          error = verdict result;
        }
  unfolding respond read_verdict
  respond-nonce nonce result rest n b l k t = ground (
    arith,
    hmac_response-nonce nonce n b,
    write_all-all w (hex_encode (hmac password nonce) ++ codes "\r\n") t,
    read_bounded_line-line max_bytes ending result rest l k,
  )

  -- What authenticate answers to a nonce of 16 bytes, and what it makes of the answer of the node,
  -- where the writer takes all that it is given and the lines are within the limit: the response is
  -- the HMAC of the nonce under the password in hexadecimal digits, and what stands behind the
  -- answer is left to read.
  pub authenticate-nonce :
      (nonce result rest : Text)
      → length nonce ≡ 16
      → all is_byte nonce ≡ true
      → has_no_newline result ≡ true
      → 41 ≤ max_bytes
      → length result + 2 ≤ max_bytes
      → TakesAll w
      → authenticate hmac none password w max_bytes ending (
          (nonce_prefix ++ hex_encode nonce)
          ++ (b'\r' ∷ b'\n' ∷ (result ++ (b'\r' ∷ b'\n' ∷ rest))))
        ≡ record {
          sent = hex_encode (hmac password nonce) ++ codes "\r\n";
          rest = rest;
          error = verdict result;
        }
  unfolding authenticate
  authenticate-nonce nonce result rest n b l m k t = ground (
    arith,
    read_bounded_line-line max_bytes ending (nonce_prefix ++ hex_encode nonce)
        (result ++ (b'\r' ∷ b'\n' ∷ rest)) (hex_encode-lacks nonce b)
        (omega (arith, n, m, hex_encode-length nonce)),
    greet-nonce (hex_encode nonce) (result ++ (b'\r' ∷ b'\n' ∷ rest)),
    respond-nonce nonce result rest n b l k t,
  )
