-- ===== src/Config/Durations/RoundTrip.antt =====
-- internal/config/toml.go: durations of whole hours, written and read back.
use gomeshcom_client.Prelude.{
  ℕ, ◌-◌, ◌*◌, ◌/◌, ◌%◌, ◌^◌, ◌<◌, ◌≡◌, refl, ap, ◌∙◌, ℤ, pos, Bool, true, false, [], ◌∷◌, ◌++◌,
  Option, some, arith, ltb, ◌==◌, length, length-append, drop-append, all, Bool-cases, inl, inr,
  is_empty,
}
use gomeshcom_client.Text.{Text, codes, text_eq, is_digit, is_space, trim_space, trim_right}
use gomeshcom_client.Text.Trim.{starts_solid, trim_left_of_starts_solid, trim_right-solid}
use gomeshcom_client.Text.Search.{text_eq_refl, trim_suffix-append}
use gomeshcom_client.Chatlog.Ids.{is_numeric}
use gomeshcom_client.Console.Decimal.{decimal, decimal_from, string_id}
use gomeshcom_client.Console.Decimal.RoundTrip.{string_id-decimal}
use gomeshcom_client.Stats.Keys.{atoi, digits_value}
use gomeshcom_client.Config.Durations.{
  hour, day, int64_of, days_long, has_suffix, parse_trimmed, parse_duration, format_toml_duration,
}

abbrev is_digits : Text → Bool
is_digits s = all is_digit s

digits-starts_solid :
    (s t : Text) → is_digits s ≡ true → is_empty s ≡ false → starts_solid (s ++ t) ≡ true
digits-starts_solid [] t h n = ground arith
digits-starts_solid (c ∷ s) t h n = ground arith

-- A number and a unit of one byte have no blanks round them.
trim_space-unit :
    (s : Text) (unit : ℕ)
    → is_digits s ≡ true
    → is_empty s ≡ false
    → is_space unit ≡ false
    → trim_space (s ++ (unit ∷ [])) ≡ s ++ (unit ∷ [])
unfolding trim_space trim_right
trim_space-unit s unit h n u =
    ap trim_right
      (trim_left_of_starts_solid (s ++ (unit ∷ [])) (digits-starts_solid s (unit ∷ []) h n))
    ∙ trim_right-solid s unit [] u

has_suffix-append : (p s : Text) → has_suffix p (s ++ p) ≡ true
unfolding has_suffix
has_suffix-append p s =
    let n : length (s ++ p) - length p ≡ length s = omega (arith, length-append s p) in
    ground (arith, n, length-append s p, drop-append s p, text_eq_refl p)

has_suffix-other :
    (a b : ℕ) (s : Text) → (a == b) ≡ false → has_suffix (a ∷ []) (s ++ (b ∷ [])) ≡ false
unfolding has_suffix text_eq
has_suffix-other a b s d =
    let n : length (s ++ (b ∷ [])) - 1 ≡ length s = omega (arith, length-append s (b ∷ [])) in
    ground (arith, n, length-append s (b ∷ []), drop-append s (b ∷ []))

atoi-digits :
    (s : Text)
    → is_digits s ≡ true
    → is_empty s ≡ false
    → decimal s < 2 ^ 63
    → atoi s ≡ some (pos (decimal s))
unfolding atoi digits_value is_numeric
atoi-digits [] h n l = ground arith
atoi-digits (c ∷ s) h n l = ground arith

decimal-nonempty : (s : Text) → 0 < decimal s → is_empty s ≡ false
unfolding decimal decimal_from
decimal-nonempty [] p = ground arith
decimal-nonempty (c ∷ s) p = refl

string_id-nonempty : (k : ℕ) → 0 < k → k < 10 ^ 20 → is_empty (string_id k) ≡ false
string_id-nonempty k p l =
    decimal-nonempty (string_id k) (omega (arith, p, (string_id-decimal k l).0))

module _ (parse_std : Text → Option ℤ) (print_std : ℤ → Text) where
  day_text :
      (k : ℕ)
      → 0 < k
      → k * day < 2 ^ 63
      → parse_duration parse_std (string_id k ++ codes "d") ≡ some (pos (k * day))
  unfolding parse_duration parse_trimmed days_long int64_of
  day_text k p l =
      let small : k < 10 ^ 20 = omega (arith, l) in
      let (value, digits) = string_id-decimal k small in
      let nonempty = string_id-nonempty k p small in
      let fits : decimal (string_id k) < 2 ^ 63 = omega (arith, l, value) in
      rw
        (
          trim_space-unit (string_id k) b'd' digits nonempty refl,
          has_suffix-append (codes "d") (string_id k),
          trim_suffix-append (codes "d") (string_id k),
          atoi-digits (string_id k) digits nonempty fits,
          value,
        )
        (ground arith)

  hour_text :
      (k : ℕ)
      → 0 < k
      → k * hour < 2 ^ 63
      → parse_std (string_id k ++ codes "h") ≡ some (pos (k * hour))
      → parse_duration parse_std (string_id k ++ codes "h") ≡ some (pos (k * hour))
  unfolding parse_duration parse_trimmed
  hour_text k p l std =
      let small : k < 10 ^ 20 = omega (arith, l) in
      let (value, digits) = string_id-decimal k small in
      rw
        (
          trim_space-unit (string_id k) b'h' digits (string_id-nonempty k p small) refl,
          has_suffix-other b'd' b'h' (string_id k) refl,
        )
        std

  -- A duration of whole hours that an int64 holds comes back from its text, where time.ParseDuration
  -- reads a number before an h as hours.
  pub parse_duration-format_toml_duration :
      (k : ℕ)
      → 0 < k
      → k * hour < 2 ^ 63
      → parse_std (string_id k ++ codes "h") ≡ some (pos (k * hour))
      → parse_duration parse_std (format_toml_duration print_std (pos (k * hour)))
        ≡ some (pos (k * hour))
  unfolding format_toml_duration
  parse_duration-format_toml_duration k p l std =
      let filled : ltb 0 (k * hour) ≡ true = ground arith in
      elim (Bool-cases (k * hour % day == 0)) [
        | inl whole ↦
            let same : k * hour / day * day ≡ k * hour = ground arith in
            rw (filled, whole)
              (day_text (k * hour / day) (omega (arith, p, same)) (omega (arith, l, same))
                ∙ ap (λ n. some (pos n)) same)
        | inr part ↦
            let whole : (k * hour % hour == 0) ≡ true = ground arith in
            let same : k * hour / hour ≡ k = omega arith in
            rw (filled, part, whole, same) (hour_text k p l std)
      ]
