-- ===== src/Netconsole/Auth/Accepted.antt =====
-- internal/netconsole/auth.go: what lies behind a handshake without an error.
use gomeshcom_client.Prelude.{
  ℕ, ◌==◌, ◌≡◌, refl, subst, true, [], ◌++◌, none, some, arith, length, Bool-cases, Option-cases,
  inl, inr, ◌⊎◌,
}
use gomeshcom_client.Text.{Text, codes, text_eq, has_prefix, trim_prefix}
use gomeshcom_client.Text.Search.{text_eq_iff}
use gomeshcom_client.Netconsole.Auth.{
  ConsoleError, out_of_fuel, Writer, write_all, Line, line, no_line, read_bounded_line,
  nonce_prefix, Handshake, verdict, read_verdict, hmac_response, hex_encode, hex_decode, respond,
  greet, authenticate,
}
use gomeshcom_client.Netconsole.Auth.Writing.{IsWriter, write_all-Written}
use gomeshcom_client.Transport.Written.{Written-sent}

verdict-eq-none : (s : Text) → verdict s ≡ none → s ≡ codes "OK"
unfolding verdict
verdict-eq-none s h = ground (arith, text_eq_iff s (codes "OK"))

Line-cases :
    (l : Line) → ((e : ConsoleError) × (l ≡ no_line e)) ⊎ ((s : Text) × (t : Text) × (l ≡ line s t))
Line-cases (line s t) = inr (s, t, refl)
Line-cases (no_line e) = inl (e, refl)

module _ (hmac : Text → Text → Text) (password : Text) (w : Writer) (max_bytes : ℕ)
    (ending : ConsoleError) where
  -- A handshake that succeeds: the node says OK at once and is sent nothing, or it says OK behind
  -- the answer to its nonce.
  pub data Accepted (input : Text) : Handshake → Type 0 where
    unchallenged :
        (after : Text)
        → read_bounded_line max_bytes ending input ≡ line (codes "OK") after
        → Accepted input (record { sent = []; rest = after; error = none })
    answered :
        (greeting nonce input' after : Text)
        → read_bounded_line max_bytes ending input ≡ line greeting input'
        → has_prefix nonce_prefix greeting ≡ true
        → length (trim_prefix nonce_prefix greeting) ≡ 32
        → hex_decode (trim_prefix nonce_prefix greeting) ≡ some nonce
        → read_bounded_line max_bytes ending input' ≡ line (codes "OK") after
        → Accepted input (record {
          sent = hex_encode (hmac password nonce) ++ codes "\r\n";
          rest = after;
          error = none;
        })

  read_verdict-Accepted :
      (sent input : Text)
      → (read_verdict max_bytes ending sent input).error ≡ none
      → (after : Text) × (read_bounded_line max_bytes ending input ≡ line (codes "OK") after)
        × (read_verdict max_bytes ending sent input
            ≡ record { sent = sent; rest = after; error = none })
  unfolding read_verdict
  read_verdict-Accepted sent input h =
      elim (Line-cases (read_bounded_line max_bytes ending input)) [
        | inl (e, q) ↦ ground arith
        | inr (s, t, q) ↦ (t, ground (arith, verdict-eq-none s), ground (arith, verdict-eq-none s))
      ]

  respond-Accepted :
      (input greeting input' : Text)
      → read_bounded_line max_bytes ending input ≡ line greeting input'
      → has_prefix nonce_prefix greeting ≡ true
      → IsWriter w
      → (respond hmac password w max_bytes ending (trim_prefix nonce_prefix greeting) input').error
        ≡ none
      → Accepted input
          (respond hmac password w max_bytes ending (trim_prefix nonce_prefix greeting) input')
  unfolding respond hmac_response
  respond-Accepted input greeting input' g p k h =
      let hex = trim_prefix nonce_prefix greeting in
      elim (Bool-cases (length hex == 32)) [
        | inr n ↦ ground arith
        | inl n ↦ elim (Option-cases (hex_decode hex)) [
          | inl d ↦ ground arith
          | inr (nonce, d) ↦
              let response = hex_encode (hmac password nonce) ++ codes "\r\n" in
              elim (Bool-cases (length nonce == 16)) [
                | inr m ↦ ground arith
                | inl m ↦ elim (Option-cases (write_all w response).1) [
                  | inr (e, q) ↦ ground arith
                  | inl q ↦
                      let whole =
                        Written-sent out_of_fuel response (write_all w response)
                          (write_all-Written w response k) in
                      let (after, o, v) =
                        read_verdict-Accepted (write_all w response).0 input' (ground arith) in
                      subst (Accepted input) (ground (arith, whole))
                        (answered greeting nonce input' after g p (ground arith) d o)
                ]
              ]
        ]
      ]

  -- Where the writer reports no more bytes than it is given, a handshake without an error is one of
  -- two: the first line of the node is OK, and nothing has been sent; or it is a nonce of 32 hexadecimal
  -- digits, what has been sent is the whole response, which is the HMAC of the nonce under the password
  -- in hexadecimal digits and a line end, and the second line is OK.
  pub authenticate-Accepted :
      (input : Text)
      → IsWriter w
      → (authenticate hmac none password w max_bytes ending input).error ≡ none
      → Accepted input (authenticate hmac none password w max_bytes ending input)
  unfolding authenticate greet
  authenticate-Accepted input k h = elim (Line-cases (read_bounded_line max_bytes ending input)) [
    | inl (e, q) ↦ ground arith
    | inr (greeting, after, q) ↦ elim (Bool-cases (text_eq greeting (codes "OK"))) [
      | inl o ↦
          subst (Accepted input) (ground arith)
            (unchallenged after (ground (arith, text_eq_iff greeting (codes "OK"))))
      | inr n ↦ elim (Bool-cases (has_prefix nonce_prefix greeting)) [
        | inr m ↦ ground arith
        | inl p ↦
            subst (Accepted input) (ground arith)
              (respond-Accepted input greeting after q p k (ground arith))
      ]
    ]
  ]
