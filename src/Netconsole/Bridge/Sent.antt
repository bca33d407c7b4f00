-- ===== src/Netconsole/Bridge/Sent.antt =====
-- internal/netconsole/bridge.go: what `SendText` has done when it returns.
use gomeshcom_client.Prelude.{
  ◌⊎◌, ℕ, ◌≡◌, subst, refl, Bool, false, Option, none, some, arith, Bool-cases, Option-cases, inl,
  inr,
}
use gomeshcom_client.Text.{Text}
use gomeshcom_client.Console.Encoder.{TextCommand, Result, ok, err, encode, EncodeError}
use gomeshcom_client.Console.Encoder.Safety.{IsCommand, encode-IsCommand}
use gomeshcom_client.Netconsole.Auth.{ConsoleError, out_of_fuel, Writer, write_all}
use gomeshcom_client.Netconsole.Auth.Writing.{IsWriter, write_all-Written}
use gomeshcom_client.Transport.Written.{Written-sent}
use gomeshcom_client.Netconsole.Bridge.{
  Bridge, Session, write, Sending, sent, broken, report, send_text, connected_session, is_connected,
  set_degraded, note_error, fail, set_session,
}

write-sent :
    (done deadline : Option ConsoleError) (w : Writer) (s : Session) (raw : Text)
    → IsWriter w
    → (write done deadline w s raw).1 ≡ none
    → (write done deadline w s raw).0 ≡ raw
unfolding write
write-sent (some e) deadline w s raw p h = ground arith
write-sent none deadline w s raw p h =
    ground (arith, Written-sent out_of_fuel raw (write_all w raw) (write_all-Written w raw p))

Result-cases : (r : Result) → ((raw : Text) × (r ≡ ok raw)) ⊎ ((e : EncodeError) × (r ≡ err e))
Result-cases (ok raw) = inl (raw, refl)
Result-cases (err e) = inr (e, refl)

module _ (done deadline : Option ConsoleError) (w : Writer) (identity : Option Text)
    (disable_tx : Bool) (now : ℕ) (command : TextCommand) (b : Bridge) where
  -- `SendText` with this writer.
  abbrev pub sending : Text × Sending × Bridge
  sending = send_text (λ id. write done deadline w) identity disable_tx now command b

  -- Where the writer reports no more bytes than it is given, a text that is reported as sent has
  -- been sent as the one command that the encoder makes of it, and nothing else has changed.
  pub send_text-IsCommand :
      IsWriter w
      → sending.1 ≡ sent
      → (encode identity command ≡ ok sending.0) × IsCommand sending.0 × (sending.2 ≡ b)
  unfolding send_text
  send_text-IsCommand p h = elim (Result-cases (encode identity command)) [
    | inr (e, q) ↦ ground arith
    | inl (raw, q) ↦ elim (Bool-cases disable_tx) [
      | inl t ↦ ground arith
      | inr t ↦ elim (Option-cases (connected_session b b)) [
        | inl n ↦ ground arith
        | inr (id, n) ↦ elim (Option-cases (write done deadline w (b.sessions id) raw).1) [
          | inr (e, f) ↦ ground arith
          | inl f ↦
              let whole = write-sent done deadline w (b.sessions id) raw p f in
              (
                ground (arith, whole),
                subst IsCommand (ground (arith, whole)) (encode-IsCommand identity command raw q),
                ground arith,
              )
        ]
      ]
    ]
  ]

  -- A write that fails closes the connection of the session, and no text is sent until `Run` has
  -- come to another one.
  pub send_text-broken :
      (id : ℕ) (e : ConsoleError)
      → connected_session b b ≡ some id
      → sending.1 ≡ broken e
      → (connected_session sending.2 sending.2 ≡ none)
        × ((sending.2.sessions id).is_open ≡ false)
        × (sending.2.status.last_error ≡ some e)
  unfolding send_text report set_degraded note_error fail set_session connected_session is_connected
  send_text-broken id e c h = elim (Result-cases (encode identity command)) [
    | inr (f, q) ↦ ground arith
    | inl (raw, q) ↦ ground (arith, Option-cases (write done deadline w (b.sessions id) raw).1)
  ]
