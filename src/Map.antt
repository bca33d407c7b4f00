-- ===== src/Map.antt =====
-- Go maps with string keys: association lists in the order in which a loop over the map runs.
-- That order is arbitrary in Go; here it is the order of the list.
pub mod Numbered
use gomeshcom_client.Prelude.{
  Bool, true, false, List, [], ◌∷◌, ◌≡◌, refl, inl, inr, Option, none, some, arith, Bool-cases,
  if◌then◌else◌,
}
use gomeshcom_client.Text.{Text, text_eq}
use gomeshcom_client.Text.Search.{text_eq_iff}

abbrev pub Map {ℓ} : Type ℓ → Type ℓ
Map V = List (Text × V)

module _ {ℓ} {V : Type ℓ} where
  -- `m[k]`
  unfoldable pub lookup : Text → Map V → Option V
  lookup k [] = none
  lookup k ((j, v) ∷ m) = if text_eq j k then some v else lookup k m

  -- `m[k] = v`
  unfoldable pub insert : Text → V → Map V → Map V
  insert k v [] = (k, v) ∷ []
  insert k v ((j, w) ∷ m) = if text_eq j k then (k, v) ∷ m else (j, w) ∷ insert k v m

  -- `delete(m, k)`
  unfoldable pub delete : Text → Map V → Map V
  delete k [] = []
  delete k ((j, w) ∷ m) = let rest = delete k m in if text_eq j k then rest else (j, w) ∷ rest

  pub lookup-insert :
      (k j : Text) (v : V) (m : Map V)
      → lookup j (insert k v m) ≡ (if text_eq k j then some v else lookup j m)
  unfolding lookup insert
  lookup-insert k j v [] = refl
  lookup-insert k j v ((i, w) ∷ m) =
      ground (arith, text_eq_iff k j, text_eq_iff i k, text_eq_iff i j, lookup-insert k j v m)

  pub lookup-delete :
      (k j : Text) (m : Map V) → lookup j (delete k m) ≡ (if text_eq k j then none else lookup j m)
  unfolding lookup delete
  lookup-delete k j [] = ground arith
  lookup-delete k j ((i, w) ∷ m) =
      ground (arith, text_eq_iff k j, text_eq_iff i k, text_eq_iff i j, lookup-delete k j m)

  unfoldable pub has : Text → Map V → Bool
  has k m = elim (lookup k m) [ none ↦ false | some v ↦ true ]

  -- No key stands twice.
  abbrev pub IsUnique : Map V → Type ℓ
  IsUnique [] = Unit
  IsUnique ((k, v) ∷ m) = (lookup k m ≡ none) × IsUnique m

  pub insert-IsUnique : (k : Text) (v : V) (m : Map V) → IsUnique m → IsUnique (insert k v m)
  unfolding insert
  insert-IsUnique k v [] u = (unfold lookup in refl, tt)
  insert-IsUnique k v ((j, w) ∷ m) (a, u) = elim (Bool-cases (text_eq j k)) [
    | inl e ↦ rw (e, insert) (ground (arith, text_eq_iff j k), u)
    | inr n ↦
        rw (n, insert)
          (
            ground (arith, lookup-insert k j v m, text_eq_iff j k, text_eq_iff k j),
            insert-IsUnique k v m u,
          )
  ]

  pub delete-IsUnique : (k : Text) (m : Map V) → IsUnique m → IsUnique (delete k m)
  unfolding delete
  delete-IsUnique k [] u = u
  delete-IsUnique k ((j, w) ∷ m) (a, u) = elim (Bool-cases (text_eq j k)) [
    | inl e ↦ rw (e, delete) (delete-IsUnique k m u)
    | inr n ↦ rw (n, delete) (ground (arith, lookup-delete k j m), delete-IsUnique k m u)
  ]
