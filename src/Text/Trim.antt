-- ===== src/Text/Trim.antt =====
-- Trimming and the change of case.
use gomeshcom_client.Prelude.{
  ℕ, ◌≡◌, refl, ap, ◌∙◌, Bool, true, false, not, ◌&&◌, inl, inr, [], ◌∷◌, ◌++◌, arith, Bool-cases,
  is_empty,
}
use gomeshcom_client.Text.{Text, is_space, upper, to_upper, trim_left, trim_right, trim_space}

pub is_empty-append : (s : Text) (c : ℕ) (t : Text) → is_empty (s ++ (c ∷ t)) ≡ false
is_empty-append [] c t = refl
is_empty-append (d ∷ s) c t = refl

abbrev pub starts_solid : Text → Bool
starts_solid [] = true
starts_solid (c ∷ s) = not (is_space c)

trim_left-starts_solid : (s : Text) → starts_solid (trim_left s) ≡ true
unfolding trim_left
trim_left-starts_solid [] = refl
trim_left-starts_solid (c ∷ s) = ground (arith, trim_left-starts_solid s)

pub trim_left_of_starts_solid : (s : Text) → starts_solid s ≡ true → trim_left s ≡ s
unfolding trim_left
trim_left_of_starts_solid [] h = refl
trim_left_of_starts_solid (c ∷ s) h = ground arith

trim_right-starts_solid : (s : Text) → starts_solid s ≡ true → starts_solid (trim_right s) ≡ true
unfolding trim_right
trim_right-starts_solid [] h = refl
trim_right-starts_solid (c ∷ s) h = ground arith

trim_right_idem : (s : Text) → trim_right (trim_right s) ≡ trim_right s
unfolding trim_right
trim_right_idem [] = refl
trim_right_idem (c ∷ s) = elim (Bool-cases (is_space c && is_empty (trim_right s))) [
  | inl e ↦ rw e
  | inr e ↦ rw (e, trim_right_idem s, e)
]

pub trim_space_idem : (s : Text) → trim_space (trim_space s) ≡ trim_space s
unfolding trim_space
trim_space_idem s =
    let t = trim_left s in
    let e = trim_right-starts_solid t (trim_left-starts_solid s) in
    rw (trim_left_of_starts_solid (trim_right t) e) (trim_right_idem t)

pub is_space-upper : (c : ℕ) → is_space (upper c) ≡ is_space c
unfolding upper
is_space-upper c = ground arith

upper_idem : (c : ℕ) → upper (upper c) ≡ upper c
unfolding upper
upper_idem c = ground arith

pub to_upper_idem : (s : Text) → to_upper (to_upper s) ≡ to_upper s
unfolding to_upper
to_upper_idem [] = refl
to_upper_idem (c ∷ s) = cc (upper_idem c, to_upper_idem s)

is_empty-to_upper : (s : Text) → is_empty (to_upper s) ≡ is_empty s
unfolding to_upper
is_empty-to_upper [] = refl
is_empty-to_upper (c ∷ s) = refl

trim_left-to_upper : (s : Text) → trim_left (to_upper s) ≡ to_upper (trim_left s)
unfolding trim_left to_upper
trim_left-to_upper [] = refl
trim_left-to_upper (c ∷ s) = ground (arith, is_space-upper c, trim_left-to_upper s)

trim_right-to_upper : (s : Text) → trim_right (to_upper s) ≡ to_upper (trim_right s)
unfolding trim_right to_upper
trim_right-to_upper [] = refl
trim_right-to_upper (c ∷ s) =
    ground (arith, is_space-upper c, trim_right-to_upper s, is_empty-to_upper (trim_right s))

pub trim_space-to_upper : (s : Text) → trim_space (to_upper s) ≡ to_upper (trim_space s)
unfolding trim_space
trim_space-to_upper s = ap trim_right (trim_left-to_upper s) ∙ trim_right-to_upper (trim_left s)

pub trim_right-solid :
    (s : Text) (c : ℕ) (t : Text)
    → is_space c ≡ false
    → trim_right (s ++ (c ∷ t)) ≡ s ++ (c ∷ trim_right t)
unfolding trim_right
trim_right-solid [] c t h = ground arith
trim_right-solid (d ∷ s) c t h =
    ground (arith, trim_right-solid s c t, is_empty-append s c (trim_right t))
