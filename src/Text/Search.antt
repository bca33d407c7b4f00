-- ===== src/Text/Search.antt =====
-- Equality of texts, prefixes and suffixes, and the positions of a separator.
use gomeshcom_client.Prelude.{
  ℕ, suc, ◌-◌, ◌≡◌, ◌≢◌, ◌↔◌, refl, Bool, true, false, not, inl, inr, [], ◌∷◌, ◌++◌, none, some,
  arith, Bool-cases, Option-cases, all, length, length-append, take, drop, take-append, drop-append,
  ◌==◌,
}
use gomeshcom_client.Text.{Text, text_eq, cut_prefix, trim_suffix, index, last_index, before}

pub text_eq_iff : (s t : Text) → (text_eq s t ≡ true) ↔ (s ≡ t)
unfolding text_eq
text_eq_iff (a ∷ s) (b ∷ t) = ground (arith, text_eq_iff s t)
text_eq_iff _ _ = ground arith

pub text_eq_refl : (s : Text) → text_eq s s ≡ true
text_eq_refl s = (text_eq_iff s s).1 refl

pub text_eq_ne : (s t : Text) → s ≢ t → text_eq s t ≡ false
text_eq_ne s t h = elim (Bool-cases (text_eq s t)) [
  | inl e ↦ absurd (h ((text_eq_iff s t).0 e))
  | inr e ↦ e
]

pub cut_prefix-append : (p s : Text) → cut_prefix p (p ++ s) ≡ some s
unfolding cut_prefix
cut_prefix-append [] s = refl
cut_prefix-append (c ∷ p) s = ground (arith, cut_prefix-append p s)

pub cut_prefix-eq-some : (p s t : Text) → cut_prefix p s ≡ some t → s ≡ p ++ t
unfolding cut_prefix
cut_prefix-eq-some [] s t h = ground arith
cut_prefix-eq-some (c ∷ p) [] t h = absurd (ground arith)
cut_prefix-eq-some (c ∷ p) (d ∷ s) t h = ground (arith, cut_prefix-eq-some p s t)

pub trim_suffix-append : (p s : Text) → trim_suffix p (s ++ p) ≡ s
unfolding trim_suffix
trim_suffix-append p s =
    let n : length (s ++ p) - length p ≡ length s = omega (arith, length-append s p) in
    ground (arith, n, length-append s p, drop-append s p, take-append s p, text_eq_refl p)

-- The byte does not occur.
abbrev pub lacks : ℕ → Text → Bool
lacks b s = all (λ c. not (c == b)) s

pub index-append :
    (b : ℕ) (s t : Text) → lacks b s ≡ true → index b (s ++ (b ∷ t)) ≡ some (length s)
unfolding index
index-append b [] t h = ground arith
index-append b (c ∷ s) t h = ground (arith, index-append b s t)

pub last_index-lacks : (b : ℕ) (s : Text) → lacks b s ≡ true → last_index b s ≡ none
unfolding last_index
last_index-lacks b [] h = refl
last_index-lacks b (c ∷ s) h = ground (arith, last_index-lacks b s)

pub last_index-append :
    (b : ℕ) (s t : Text) → lacks b t ≡ true → last_index b (s ++ (b ∷ t)) ≡ some (length s)
unfolding last_index
last_index-append b [] t h = ground (arith, last_index-lacks b t)
last_index-append b (c ∷ s) t h = ground (arith, last_index-append b s t)

pub last_index-splits :
    (b : ℕ) (s : Text) (i : ℕ) → last_index b s ≡ some i → s ≡ take i s ++ (b ∷ drop (suc i) s)
unfolding last_index
last_index-splits b [] i h = absurd (ground arith)
last_index-splits b (c ∷ s) i h = elim (Option-cases (last_index b s)) [
  | inl e ↦ ground arith
  | inr (j, e) ↦ ground (arith, last_index-splits b s j e)
]

pub before-lacks : (b : ℕ) (s : Text) → lacks b s ≡ true → before b s ≡ s
unfolding before
before-lacks b [] h = refl
before-lacks b (c ∷ s) h = ground (arith, before-lacks b s)

pub drop-suc-append : (b : ℕ) (s t : Text) → drop (suc (length s)) (s ++ (b ∷ t)) ≡ t
drop-suc-append b [] t = refl
drop-suc-append b (c ∷ s) t = drop-suc-append b s t

pub ne_of_text_eq : (s t : Text) → text_eq s t ≡ false → s ≢ t
ne_of_text_eq s t h e = cc (h, (text_eq_iff s t).1 e)
