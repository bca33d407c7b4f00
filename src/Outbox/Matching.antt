-- ===== src/Outbox/Matching.antt =====
-- internal/outbox/outbox.go: which observed texts `messageMatches` takes for an echo.
use gomeshcom_client.Prelude.{
  ◌-◌, ◌≡◌, ◌⊎◌, ◌↔◌, true, inl, inr, [], ◌∷◌, ◌++◌, arith, Bool-cases, Option-cases, all, length,
  drop, append_assoc, take-append-drop, all-append,
}
use gomeshcom_client.Text.{Text, codes, text_eq, is_digit, cut_prefix, trim_suffix}
use gomeshcom_client.Text.Search.{
  text_eq_iff, text_eq_refl, cut_prefix-append, cut_prefix-eq-some, trim_suffix-append,
}
use gomeshcom_client.Outbox.{is_sequence, message_matches}

-- The message, with nothing behind it, or with an open brace, digits, and perhaps a closing brace.
pub data IsEcho (sent : Text) : Text → Type 0 where
  same : IsEcho sent sent
  open_sequence : (d : Text) → is_sequence d ≡ true → IsEcho sent (sent ++ (b'{' ∷ d))
  closed_sequence :
      (d : Text) → is_sequence d ≡ true → IsEcho sent (sent ++ (b'{' ∷ (d ++ (b'}' ∷ []))))

trim_suffix-cases : (p s : Text) → (trim_suffix p s ≡ s) ⊎ (s ≡ trim_suffix p s ++ p)
unfolding trim_suffix
trim_suffix-cases p s =
    let n = length s - length p in ground (arith, text_eq_iff (drop n s) p, take-append-drop n s)

suffix-IsEcho :
    (sent suffix : Text)
    → is_sequence (trim_suffix (codes "}") suffix) ≡ true
    → IsEcho sent (sent ++ (b'{' ∷ suffix))
suffix-IsEcho sent suffix h = elim (trim_suffix-cases (codes "}") suffix) [
  | inl e ↦ open_sequence suffix (rw e at h)
  | inr e ↦ rw e (closed_sequence (trim_suffix (codes "}") suffix) h)
]

message_matches-IsEcho :
    (sent observed : Text) → message_matches sent observed ≡ true → IsEcho sent observed
unfolding message_matches
message_matches-IsEcho sent observed h = elim (Bool-cases (text_eq observed sent)) [
  | inl e ↦ rw ((text_eq_iff observed sent).0 e) same
  | inr n ↦ elim (Option-cases (cut_prefix (sent ++ codes "{") observed)) [
    | inl e ↦ absurd (ground arith)
    | inr (suffix, e) ↦
        rw (cut_prefix-eq-some (sent ++ codes "{") observed suffix e)
          (rw append_assoc (suffix-IsEcho sent suffix (ground arith)))
  ]
]

sequence-bare : (d : Text) → is_sequence d ≡ true → trim_suffix (codes "}") d ≡ d
unfolding is_sequence
sequence-bare d h = elim (trim_suffix-cases (codes "}") d) [
  | inl e ↦ e
  | inr e ↦
      let t = trim_suffix (codes "}") d in
      let digits : all is_digit (t ++ codes "}") ≡ true = rw (← e) (ground arith) in
      absurd (ground (arith, all-append is_digit t (codes "}")))
]

matches-suffix :
    (sent suffix : Text)
    → is_sequence (trim_suffix (codes "}") suffix) ≡ true
    → message_matches sent (sent ++ (b'{' ∷ suffix)) ≡ true
unfolding message_matches
matches-suffix sent suffix h =
    let shape = append_assoc sent (codes "{") suffix in
    ground (arith, shape, cut_prefix-append (sent ++ codes "{") suffix)

IsEcho-message_matches :
    {sent observed : Text} → IsEcho sent observed → message_matches sent observed ≡ true
IsEcho-message_matches {sent} same = unfold message_matches in ground (arith, text_eq_refl sent)
IsEcho-message_matches {sent} (open_sequence d h) = matches-suffix sent d (rw (sequence-bare d h) h)
IsEcho-message_matches {sent} (closed_sequence d h) =
    matches-suffix sent (d ++ codes "}") (rw (trim_suffix-append (codes "}") d) h)

-- A text matches a message that was sent exactly if it is that message, or that message with an
-- open brace, a run of digits, and perhaps a closing brace behind it.
pub message_matches_iff :
    (sent observed : Text) → (message_matches sent observed ≡ true) ↔ IsEcho sent observed
message_matches_iff sent observed =
    (message_matches-IsEcho sent observed, λ e. IsEcho-message_matches e)
