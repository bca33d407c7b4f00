-- ===== src/Console/Decimal/RoundTrip.antt =====
-- internal/outbox/outbox.go: `stringID`, and reading its result as a number.
use native.Mathlib.Nat.{pow-suc}
use gomeshcom_client.Prelude.{
  ℕ, zero, suc, ◌+◌, ◌*◌, ◌/◌, ◌%◌, ◌^◌, ◌<◌, ◌≡◌, refl, ap, ◌∙◌, sym, true, inl, inr, [], ◌∷◌,
  arith, Bool-cases, all, ltb,
}
use gomeshcom_client.Text.{Text, is_digit}
use gomeshcom_client.Console.Decimal.{decimal_from, decimal, digits_loop, string_id}

digits_loop-decimal :
    (room id : ℕ) (buf : Text)
    → id < 10 ^ room
    → decimal_from 0 (digits_loop room id buf) ≡ decimal_from id buf
unfolding decimal_from digits_loop
digits_loop-decimal zero id buf h = let e : id ≡ 0 = omega arith in rw e
digits_loop-decimal (suc room) id buf h =
    let p : 10 ^ suc room ≡ 10 ^ room * 10 = pow-suc 10 room in
    elim (Bool-cases (ltb 0 id)) [
      | inl more ↦ rw more (
          digits_loop-decimal room (id / 10) ((b'0' + id % 10) ∷ buf) (omega arith)
          ∙ ap (λ n. decimal_from n buf) (omega arith))
      | inr done ↦ let e : id ≡ 0 = ground arith in rw e
    ]

digits_loop-digits :
    (room id : ℕ) (buf : Text)
    → all is_digit buf ≡ true
    → all is_digit (digits_loop room id buf) ≡ true
unfolding digits_loop
digits_loop-digits zero id buf h = h
digits_loop-digits (suc room) id buf h =
    ground (arith, digits_loop-digits room (id / 10) ((b'0' + id % 10) ∷ buf))

-- A number below 10^20, so every `int64` that is not negative, fits in the buffer of twenty bytes:
-- its text consists of digits and reads back as the number.
pub string_id-decimal :
    (id : ℕ) → id < 10 ^ 20 → (decimal (string_id id) ≡ id) × (all is_digit (string_id id) ≡ true)
unfolding decimal string_id decimal_from
string_id-decimal id h =
    ground (arith, digits_loop-decimal 20 id [] h, digits_loop-digits 20 id [] refl)

-- Two such numbers have two texts.
pub string_id-injective : (a b : ℕ) → a < 10 ^ 20 → b < 10 ^ 20 → string_id a ≡ string_id b → a ≡ b
string_id-injective a b h k e =
    sym (string_id-decimal a h).0 ∙ ap decimal e ∙ (string_id-decimal b k).0
