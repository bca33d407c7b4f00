-- ===== src/Stats/Table.antt =====
-- internal/stats/store.go: a table of counters by hour and key, as `stats_channels` and
-- `stats_distance`. `parts` makes the columns of a key, `key` the key of the columns, and `same`
-- compares the columns of the primary key.
use gomeshcom_client.Prelude.{
  ℕ, ◌≡◌, ◌∙◌, ◌⊎◌, refl, Bool, true, false, ◌&&◌, ◌||◌, List, [], ◌∷◌, Option, none, some, inl,
  inr, arith, if◌then◌else◌, ◌==◌, ==_iff, subst, Bool-cases,
}
use gomeshcom_client.Text.{Text, text_eq}
use gomeshcom_client.Text.Search.{text_eq_iff}
use gomeshcom_client.Map.{Map, lookup, insert, lookup-insert, IsUnique}

pub record Row {ℓ} (C : Type ℓ) : Type ℓ where
  pub hour : ℕ
  pub columns : C
  pub count : ℕ

module _ {ℓ} {C : Type ℓ} (parts : Text → Option C) (key : C → Text) (same : C → C → Bool) where
  -- If the primary key is in the table.
  unfoldable pub taken : ℕ → C → List (Row C) → Bool
  taken hour c [] = false
  taken hour c (r ∷ rs) = (r.hour == hour && same r.columns c) || taken hour c rs

  unfoldable pub insert_row : ℕ → C → ℕ → List (Row C) → Option (List (Row C))
  insert_row hour c count rows =
      if taken hour c rows
      then none
      else some (record { hour = hour; columns = c; count = count } ∷ rows)

  -- The loop of `insertSQLiteBucket` over a map of counters; `none` is an error.
  unfoldable pub write_map : ℕ → Map ℕ → List (Row C) → Option (List (Row C))
  write_map hour [] rows = some rows
  write_map hour ((k, n) ∷ m) rows = elim (parts k) [
    | none ↦ none
    | some c ↦ elim (insert_row hour c n rows) [ none ↦ none | some rows' ↦ write_map hour m rows' ]
  ]

  -- What the loop over the rows makes of the map of one hour.
  unfoldable pub read_map : ℕ → List (Row C) → Map ℕ → Map ℕ
  read_map hour [] m = m
  read_map hour (r ∷ rs) m =
      let rest = read_map hour rs m in
      if r.hour == hour then insert (key r.columns) r.count rest else rest

  -- The count of the row of an hour and a key.
  unfoldable pub find : ℕ → Text → List (Row C) → Option ℕ
  find hour k [] = none
  find hour k (r ∷ rs) =
      let rest = find hour k rs in
      if r.hour == hour && text_eq (key r.columns) k then some r.count else rest

  pub lookup-read_map :
      (hour : ℕ) (k : Text) (rows : List (Row C))
      → lookup k (read_map hour rows []) ≡ find hour k rows
  unfolding read_map find lookup
  lookup-read_map hour k [] = refl
  lookup-read_map hour k (r ∷ rs) = ground (
    arith,
    lookup-read_map hour k rs,
    lookup-insert (key r.columns) k r.count (read_map hour rs []),
  )

  -- Every key of a map comes back from its columns.
  abbrev pub AreStored : Map ℕ → Type ℓ
  AreStored [] = Unit
  AreStored ((k, n) ∷ m) = ((c : C) × (parts k ≡ some c) × (key c ≡ k)) × AreStored m

  -- The counts behind a written map: its own in its hour, and those that were there.
  unfoldable pub count_behind : ℕ → Map ℕ → List (Row C) → ℕ → Text → Option ℕ
  count_behind hour m rows h k =
      let old = find h k rows in
      if h == hour then elim (lookup k m) [ none ↦ old | some n ↦ some n ] else old

  pub count_behind_own :
      (hour : ℕ) (m : Map ℕ) (rows : List (Row C)) (k : Text)
      → find hour k rows ≡ none
      → count_behind hour m rows hour k ≡ lookup k m
  unfolding count_behind
  count_behind_own hour m rows k n = ground (arith, n, ==_iff hour hour)

  pub count_behind_other :
      (hour : ℕ) (m : Map ℕ) (rows : List (Row C)) (h : ℕ) (k : Text)
      → (hour == h) ≡ false
      → count_behind hour m rows h k ≡ find h k rows
  unfolding count_behind
  count_behind_other hour m rows h k n = ground (arith, n, ==_iff hour h, ==_iff h hour)

  write_map-cons :
      (hour : ℕ) (k : Text) (n : ℕ) (m : Map ℕ) (rows : List (Row C)) (c : C)
      → parts k ≡ some c
      → taken hour c rows ≡ false
      → write_map hour ((k, n) ∷ m) rows
        ≡ write_map hour m (record { hour = hour; columns = c; count = n } ∷ rows)
  unfolding write_map insert_row
  write_map-cons hour k n m rows c p t = ground (arith, p, t)

  module _ (same_key : (a b : C) → same a b ≡ true → key a ≡ key b) where
    taken_found :
        (hour : ℕ) (c : C) (k : Text) (rows : List (Row C))
        → key c ≡ k
        → find hour k rows ≡ none
        → taken hour c rows ≡ false
    unfolding taken find
    taken_found hour c k [] e n = refl
    taken_found hour c k (r ∷ rs) e n =
        ground
          (arith, taken_found hour c k rs e, same_key r.columns c, text_eq_iff (key r.columns) k)

    pub write_map-find :
        (hour : ℕ) (m : Map ℕ) (rows : List (Row C))
        → AreStored m
        → IsUnique m
        → ((k : Text) → (find hour k rows ≡ none) ⊎ (lookup k m ≡ none))
        → (rows' : List (Row C)) × (write_map hour m rows ≡ some rows')
          × ((h : ℕ) (k : Text) → find h k rows' ≡ count_behind hour m rows h k)
    unfolding write_map count_behind lookup find
    write_map-find hour [] rows st u fresh = (rows, refl, λ h k. ground arith)
    write_map-find hour ((k, n) ∷ m) rows ((c, p, e), st) (a, u) fresh =
        let free : find hour k rows ≡ none = ground (arith, fresh k, text_eq_iff k k) in
        let row : Row C = record { hour = hour; columns = c; count = n } in
        let still : (j : Text) → (find hour j (row ∷ rows) ≡ none) ⊎ (lookup j m ≡ none) = λ j.
          elim (Bool-cases (text_eq k j)) [
            | inl same_one ↦ inr (subst (λ i. lookup i m ≡ none) ((text_eq_iff k j).0 same_one) a)
            | inr other ↦ ground (arith, fresh j, text_eq_iff (key c) j, text_eq_iff k j)
          ] in
        let (rows', w, f) = write_map-find hour m (row ∷ rows) st u still in
        (
          rows',
          write_map-cons hour k n m rows c p (taken_found hour c k rows e free) ∙ w,
          λ h j. ground (arith, f h j, a, text_eq_iff (key c) j, text_eq_iff k j),
        )
