-- ===== src/Map/Numbered.antt =====
-- Go maps with integer keys, as association lists.
use gomeshcom_client.Prelude.{
  ℕ, ◌≡◌, refl, List, [], ◌∷◌, Option, none, some, arith, if◌then◌else◌, ◌==◌,
}

abbrev pub NumberMap {ℓ} : Type ℓ → Type ℓ
NumberMap V = List (ℕ × V)

module _ {ℓ} {V : Type ℓ} where
  -- `m[k]`
  unfoldable pub at : ℕ → NumberMap V → Option V
  at k [] = none
  at k ((j, v) ∷ m) = let rest = at k m in if j == k then some v else rest

  -- `m[k] = v`
  unfoldable pub put : ℕ → V → NumberMap V → NumberMap V
  put k v [] = (k, v) ∷ []
  put k v ((j, w) ∷ m) = let rest = put k v m in if j == k then (k, v) ∷ m else (j, w) ∷ rest

  pub at-put :
      (k j : ℕ) (v : V) (m : NumberMap V) → at j (put k v m) ≡ (if k == j then some v else at j m)
  unfolding at put
  at-put k j v [] = refl
  at-put k j v ((i, w) ∷ m) = ground (arith, at-put k j v m)
