-- ===== src/Netconsole/Auth/Writing.antt =====
-- internal/netconsole/auth.go: the loop of `writeAll`.
use gomeshcom_client.Prelude.{
  ℕ, zero, suc, ◌≤◌, ◌≡◌, refl, [], ◌∷◌, ◌++◌, some, arith, length, take, drop, length-drop,
  Option-cases, ◌≢◌, sym, ==_iff, ◌∙◌, Bool-cases, inl, inr, ◌==◌, take-append-drop, append_assoc,
  append-nil,
}
use gomeshcom_client.Text.{Text}
use gomeshcom_client.Transport.Written.{Written, all_sent, stopped}
use gomeshcom_client.Netconsole.Auth.{Writer, out_of_fuel, short_write, write_loop, write_all}

-- The writer reports no more bytes than it is given, as `io.Writer` requires.
abbrev pub IsWriter : Writer → Type 0
IsWriter w =
    ((call : ℕ) (raw : Text) → (w call raw).0 ≤ length raw)
    × ((call : ℕ) (raw : Text) → (w call raw).1 ≢ some out_of_fuel)

write_loop-Written :
    (w : Writer) (fuel call : ℕ) (sent raw whole : Text)
    → length raw ≤ fuel
    → IsWriter w
    → sent ++ raw ≡ whole
    → Written out_of_fuel whole (write_loop fuel w call sent raw)
unfolding write_loop
write_loop-Written w fuel call sent [] whole h p r = all_sent sent (sym (append-nil sent) ∙ r)
write_loop-Written w zero call sent (c ∷ raw) whole h p r = ground arith
write_loop-Written w (suc fuel) call sent (c ∷ raw) whole h (most, real) r =
    let (written, error) = w call (c ∷ raw) in
    let sent' = sent ++ take written (c ∷ raw) in
    let split : sent' ++ drop written (c ∷ raw) ≡ whole = ground (
      arith,
      append_assoc sent (take written (c ∷ raw)) (drop written (c ∷ raw)),
      take-append-drop written (c ∷ raw),
    ) in
    elim (Option-cases error) [
      | inr (e, q) ↦
          rw (q, write_loop)
            (stopped sent' (drop written (c ∷ raw)) e split (rw (sym q) (real call (c ∷ raw))))
      | inl q ↦ elim (Bool-cases (written == 0)) [
        | inl z ↦
            rw (q, z, write_loop)
              (stopped sent' (drop written (c ∷ raw)) short_write split (λ n. cc))
        | inr z ↦
            rw (q, z, write_loop)
              (write_loop-Written w fuel (suc call) sent' (drop written (c ∷ raw)) whole
                (ground (arith, ==_iff written 0, length-drop written (c ∷ raw))) (most, real)
                split)
      ]
    ]

-- For every writer that reports no more bytes than it is given, the loop ends: all the bytes have
-- been sent in order and there is no error, or a beginning of them and there is one.
pub write_all-Written :
    (w : Writer) (raw : Text) → IsWriter w → Written out_of_fuel raw (write_all w raw)
unfolding write_all
write_all-Written w raw p = write_loop-Written w (length raw) 0 [] raw raw (omega arith) p refl
