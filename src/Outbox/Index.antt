-- ===== src/Outbox/Index.antt =====
-- internal/outbox/outbox.go: the index from keys to identifiers.
use gomeshcom_client.Prelude.{
  ◌≡◌, ◌≢◌, Bool, true, false, ◌||◌, inl, inr, List, [], ◌∷◌, ◌++◌, none, some, arith, Option-cases,
  if◌then◌else◌,
}
use gomeshcom_client.Text.{Text, text_eq}
use gomeshcom_client.Text.Search.{text_eq_iff, text_eq_refl}
use gomeshcom_client.Map.{Map, lookup, insert, delete, lookup-insert, lookup-delete}
use gomeshcom_client.Outbox.{PendingMessage, remove_id, ids_of, set_ids, Taken, take_pending}

-- The identifier is in the list.
unfoldable pub mem : Text → List Text → Bool
mem x [] = false
mem x (id ∷ ids) = text_eq id x || mem x ids

pub mem-concat :
    (x y : Text) (ids : List Text) → mem x (ids ++ (y ∷ [])) ≡ (mem x ids || text_eq y x)
unfolding mem
mem-concat x y [] = ground arith
mem-concat x y (id ∷ ids) = ground (arith, mem-concat x y ids)

pub mem-remove_id :
    (x y : Text) (ids : List Text) → mem x (remove_id ids y) ≡ true → mem x ids ≡ true
unfolding mem remove_id
mem-remove_id x y [] h = h
mem-remove_id x y (id ∷ ids) h = ground (arith, mem-remove_id x y ids)

pub mem-remove_id_ne :
    (x y : Text) (ids : List Text) → x ≢ y → mem x ids ≡ true → mem x (remove_id ids y) ≡ true
unfolding mem remove_id
mem-remove_id_ne x y [] n h = h
mem-remove_id_ne x y (id ∷ ids) n h =
    ground (arith, text_eq_iff id x, text_eq_iff id y, mem-remove_id_ne x y ids n)

pub ids_of-insert :
    (j k : Text) (ids : List Text) (m : Map (List Text))
    → ids_of j (insert k ids m) ≡ (if text_eq k j then ids else ids_of j m)
unfolding ids_of
ids_of-insert j k ids m = ground (arith, lookup-insert k j ids m)

pub ids_of-delete :
    (j k : Text) (m : Map (List Text))
    → ids_of j (delete k m) ≡ (if text_eq k j then [] else ids_of j m)
unfolding ids_of
ids_of-delete j k m = ground (arith, lookup-delete k j m)

pub ids_of-set_ids :
    (j k : Text) (ids : List Text) (m : Map (List Text))
    → ids_of j (set_ids k ids m) ≡ (if text_eq k j then ids else ids_of j m)
unfolding set_ids
ids_of-set_ids j k [] m = ids_of-delete j k m
ids_of-set_ids j k (id ∷ ids) m = ids_of-insert j k (id ∷ ids) m

-- What the loop has found.
pub take_pending-eq-some :
    (m : Map PendingMessage) (ids : List Text) (t : Taken)
    → take_pending m ids ≡ some t
    → (lookup t.id m ≡ some t.entry)
      × (mem t.id ids ≡ true)
      × ((x : Text) → mem x t.rest ≡ true → mem x ids ≡ true)
      × ((x : Text) (p : PendingMessage)
          → mem x ids ≡ true
          → lookup x m ≡ some p
          → x ≢ t.id
          → mem x t.rest ≡ true)
unfolding take_pending mem
take_pending-eq-some m [] t h = absurd (ground arith)
take_pending-eq-some m (id ∷ ids) t h = elim (Option-cases (lookup id m)) [
  | inl e ↦
      let (found, listed, rest, kept) = take_pending-eq-some m ids t (rw (e, take_pending) at h) in
      (
        found,
        ground arith,
        λ x k. ground (arith, rest x k),
        λ x p k l n. kept x p (ground (arith, text_eq_iff id x)) l n,
      )
  | inr (p, e) ↦
      let h' : some (record { id = id; entry = p; rest = ids }) ≡ some t =
        rw (e, take_pending) at h in
      (
        ground arith,
        ground (arith, text_eq_refl id),
        λ x k. ground arith,
        λ x q k l n. ground (arith, text_eq_iff id x),
      )
]

pub take_pending-eq-none :
    (m : Map PendingMessage) (ids : List Text) (x : Text)
    → take_pending m ids ≡ none
    → mem x ids ≡ true
    → lookup x m ≡ none
unfolding take_pending mem
take_pending-eq-none m [] x h k = absurd (ground arith)
take_pending-eq-none m (id ∷ ids) x h k = elim (Option-cases (lookup id m)) [
  | inl e ↦
      let h' = rw (e, take_pending) at h in
      ground (arith, text_eq_iff id x, take_pending-eq-none m ids x h')
  | inr (p, e) ↦ absurd (ground arith)
]
