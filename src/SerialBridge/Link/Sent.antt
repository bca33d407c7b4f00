-- ===== src/SerialBridge/Link/Sent.antt =====
-- internal/serialbridge/bridge.go: the loop of `write`, and what `SendText` has done when it returns.
use gomeshcom_client.Prelude.{
  ◌⊎◌, ℕ, zero, suc, ◌≤◌, ◌≡◌, ◌≢◌, sym, ◌∙◌, subst, refl, Bool, false, ◌||◌, [], ◌∷◌, ◌++◌, Option,
  none, some, arith, Bool-cases, Option-cases, inl, inr, ◌==◌, ==_iff, ltb, length, take, drop,
  length-drop, take-append-drop, append_assoc, append-nil,
}
use gomeshcom_client.Text.{Text}
use gomeshcom_client.Transport.Written.{Written, all_sent, stopped, Written-sent}
use gomeshcom_client.Console.Encoder.{TextCommand, Result, ok, err, encode, EncodeError}
use gomeshcom_client.Console.Encoder.Safety.{IsCommand, encode-IsCommand}
use gomeshcom_client.SerialBridge.Link.{
  SerialError, short_write, out_of_fuel, Writer, write_loop, Bridge, write, Sending, sent, broken,
  report, send_text, connected_session, is_connected, set_degraded, error_text, fail, set_session,
}

-- No call returns the error that stands for a loop that has not ended.
abbrev pub IsReal : (ℕ → Option SerialError) → Writer → Type 0
IsReal done w =
    ((call : ℕ) → done call ≢ some out_of_fuel)
    × ((call : ℕ) (raw : Text) → (w call raw).1 ≢ some out_of_fuel)

write_loop-Written :
    (done : ℕ → Option SerialError) (w : Writer) (fuel call : ℕ) (so_far raw whole : Text)
    → length raw ≤ fuel
    → IsReal done w
    → so_far ++ raw ≡ whole
    → Written out_of_fuel whole (write_loop fuel done w call so_far raw)
unfolding write_loop
write_loop-Written done w fuel call so_far [] whole h p r =
    all_sent so_far (sym (append-nil so_far) ∙ r)
write_loop-Written done w zero call so_far (c ∷ raw) whole h p r = ground arith
write_loop-Written done w (suc fuel) call so_far (c ∷ raw) whole h (context, port) r =
    let (written, error) = w call (c ∷ raw) in
    let so_far' = so_far ++ take written (c ∷ raw) in
    let split : so_far' ++ drop written (c ∷ raw) ≡ whole = ground (
      arith,
      append_assoc so_far (take written (c ∷ raw)) (drop written (c ∷ raw)),
      take-append-drop written (c ∷ raw),
    ) in
    elim (Option-cases (done call)) [
      | inr (e, d) ↦ rw (d, write_loop) (stopped so_far (c ∷ raw) e r (rw (sym d) (context call)))
      | inl d ↦ elim (Option-cases error) [
        | inr (e, q) ↦
            rw (d, q, write_loop)
              (stopped so_far' (drop written (c ∷ raw)) e split (rw (sym q) (port call (c ∷ raw))))
        | inl q ↦ elim (Bool-cases (written == 0 || ltb (length (c ∷ raw)) written)) [
          | inl z ↦
              rw (d, q, z, write_loop)
                (stopped so_far' (drop written (c ∷ raw)) short_write split (λ n. cc))
          | inr z ↦
              rw (d, q, z, write_loop)
                (write_loop-Written done w fuel (suc call) so_far' (drop written (c ∷ raw)) whole
                  (ground (arith, ==_iff written 0, length-drop written (c ∷ raw))) (context, port)
                  split)
        ]
      ]
    ]

-- Whatever counts and errors the port and the context give, the loop of a write ends: all the bytes
-- have been sent in order and there is no error, or a beginning of them and there is one.
pub write-Written :
    (done : ℕ → Option SerialError) (w : Writer) (raw : Text)
    → IsReal done w
    → Written out_of_fuel raw (write done w raw)
unfolding write
write-Written done w raw p =
    write_loop-Written done w (length raw) 0 [] raw raw (omega arith) p refl

write-sent :
    (done : ℕ → Option SerialError) (w : Writer) (raw : Text)
    → IsReal done w
    → (write done w raw).1 ≡ none
    → (write done w raw).0 ≡ raw
write-sent done w raw p h =
    Written-sent out_of_fuel raw (write done w raw) (write-Written done w raw p) h

Result-cases : (r : Result) → ((raw : Text) × (r ≡ ok raw)) ⊎ ((e : EncodeError) × (r ≡ err e))
Result-cases (ok raw) = inl (raw, refl)
Result-cases (err e) = inr (e, refl)

module _ (done : ℕ → Option SerialError) (w : Writer) (identity : Option Text) (disable_tx : Bool)
    (now : ℕ) (command : TextCommand) (b : Bridge) where
  -- `SendText` with this writer.
  abbrev pub sending : Text × Sending × Bridge
  sending = send_text (λ id. write done w) identity disable_tx now command b

  -- A text that is reported as sent has been sent as the one command that the encoder makes of it,
  -- and nothing else has changed.
  pub send_text-IsCommand :
      IsReal done w
      → sending.1 ≡ sent
      → (encode identity command ≡ ok sending.0) × IsCommand sending.0 × (sending.2 ≡ b)
  unfolding send_text
  send_text-IsCommand p h = elim (Result-cases (encode identity command)) [
    | inr (e, q) ↦ ground arith
    | inl (raw, q) ↦ elim (Bool-cases disable_tx) [
      | inl t ↦ ground arith
      | inr t ↦ elim (Option-cases (connected_session b b)) [
        | inl n ↦ ground arith
        | inr (id, n) ↦ elim (Option-cases (write done w raw).1) [
          | inr (e, f) ↦ ground arith
          | inl f ↦
              let whole = write-sent done w raw p f in
              (
                ground (arith, whole),
                subst IsCommand (ground (arith, whole)) (encode-IsCommand identity command raw q),
                ground arith,
              )
        ]
      ]
    ]
  ]

  -- A write that fails closes the connection of the session, and no text is sent until `Run` has
  -- come to another one.
  pub send_text-broken :
      (id : ℕ) (e : SerialError)
      → connected_session b b ≡ some id
      → sending.1 ≡ broken e
      → (connected_session sending.2 sending.2 ≡ none)
        × ((sending.2.sessions id).is_open ≡ false)
        × (sending.2.status.last_error ≡ some e)
  unfolding send_text report set_degraded error_text fail set_session connected_session is_connected
  send_text-broken id e c h = elim (Result-cases (encode identity command)) [
    | inr (f, q) ↦ ground arith
    | inl (raw, q) ↦ ground (arith, Option-cases (write done w raw).1)
  ]
