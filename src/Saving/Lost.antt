-- ===== src/Saving/Lost.antt =====
-- The two critical sections of the saves, and changes that fall between them.
use gomeshcom_client.Prelude.{
  Bool, true, false, List, [], ◌∷◌, ◌++◌, Option, none, some, ◌≡◌, ◌∙◌, refl, ap, arith, Bool-cases,
  inl, inr,
}
use gomeshcom_client.Saving.{Store, put, begin_save, take_out, finish_save}

-- The snapshot of the save that began last.
abbrev pub last_begun {ℓ} : {S : Type ℓ} → List S → Option S
last_begun [] = none
last_begun (s ∷ []) = some s
last_begun (s ∷ t ∷ ss) = last_begun (t ∷ ss)

-- What is not marked is stored, or is on its way behind all other saves.
pub record IsKept {ℓ} {S : Type ℓ} (st : Store S) : Type ℓ where
  pub at_rest : st.dirty ≡ false → st.in_flight ≡ [] → st.stored ≡ some st.current
  pub on_its_way : (s : S) → st.dirty ≡ false → last_begun st.in_flight ≡ some s → s ≡ st.current

module _ {ℓ} {S : Type ℓ} where
  -- Callers change the value, and saves run, at any time between their critical sections too, but no
  -- save overtakes one that began earlier.
  pub data Step (st : Store S) : Store S → Type ℓ where
    puts : (v : S) → Step st (put v st)
    begins : Step st (begin_save st)
    finishes : (written : Bool) → Step st (finish_save 0 written st)

  pub data Steps (st : Store S) : Store S → Type ℓ where
    here : Steps st st
    next : {t u : Store S} → Steps st t → Step t u → Steps st u

  pub put-IsKept : (v : S) (st : Store S) → IsKept (put v st)
  unfolding put
  put-IsKept v st = record {
    at_rest = λ d n. absurd (ground arith);
    on_its_way = λ s d n. absurd (ground arith);
  }

  pub last_begun-append : (ss : List S) (v : S) → last_begun (ss ++ (v ∷ [])) ≡ some v
  last_begun-append [] v = refl
  last_begun-append (s ∷ []) v = refl
  last_begun-append (s ∷ t ∷ ss) v = last_begun-append (t ∷ ss) v

  pub append-not_empty : (ss : List S) (v : S) → ss ++ (v ∷ []) ≡ [] → ⊥
  append-not_empty [] v e = ground arith
  append-not_empty (s ∷ ss) v e = ground arith

  pub begin_save-IsKept : {st : Store S} → IsKept st → IsKept (begin_save st)
  unfolding begin_save
  begin_save-IsKept {st} k = elim (Bool-cases st.dirty) [
    | inl d ↦
        rw (d, begin_save)
          (record {
            at_rest = λ e f. absurd (append-not_empty st.in_flight st.current f);
            on_its_way = λ s e f. ground (arith, last_begun-append st.in_flight st.current);
          })
    | inr d ↦ simp (d, begin_save) k
  ]

  finish_save-at :
      (written : Bool) (st : Store S) (ss : List S)
      → st.in_flight ≡ ss
      → IsKept st
      → IsKept (finish_save 0 written st)
  unfolding finish_save take_out
  finish_save-at written st [] e k = rw (finish_save, e) k
  finish_save-at false st (s ∷ ss) e k =
      rw (finish_save, e)
        (record {
          at_rest = λ d n. absurd (ground arith);
          on_its_way = λ t d n. absurd (ground arith);
        })
  finish_save-at true st (s ∷ []) e k =
      rw (finish_save, e)
        (record {
          at_rest = λ d n. ap some (k.on_its_way s d (ap last_begun e));
          on_its_way = λ t d n. absurd (ground arith);
        })
  finish_save-at true st (s ∷ t ∷ ss) e k =
      rw (finish_save, e)
        (record {
          at_rest = λ d n. absurd (ground arith);
          on_its_way = λ u d n. k.on_its_way u d (ap last_begun e ∙ n);
        })

  pub finish_save-IsKept :
      {st : Store S} (written : Bool) → IsKept st → IsKept (finish_save 0 written st)
  finish_save-IsKept {st} written k = finish_save-at written st st.in_flight refl k

  Step-IsKept : {st st' : Store S} → Step st st' → IsKept st → IsKept st'
  Step-IsKept {st} (puts v) k = put-IsKept v st
  Step-IsKept begins k = begin_save-IsKept k
  Step-IsKept (finishes written) k = finish_save-IsKept written k

  Steps-IsKept : {st st' : Store S} → Steps st st' → IsKept st → IsKept st'
  Steps-IsKept here k = k
  Steps-IsKept (next r s) k = Step-IsKept s (Steps-IsKept r k)

  -- After a change, whatever changes and saves follow, with any of them between the critical sections
  -- of a save and with any failures, as long as the writes of the saves come in the order in which the
  -- saves began: where nothing is marked and no save is under way, the database holds the current
  -- value.
  pub put_not_lost :
      (v : S) (st st' : Store S)
      → Steps (put v st) st'
      → st'.dirty ≡ false
      → st'.in_flight ≡ []
      → st'.stored ≡ some st'.current
  put_not_lost v st st' r = (Steps-IsKept r (put-IsKept v st)).at_rest

  -- A save that is overtaken: its write comes behind that of a save that began later, and the later
  -- value is lost, though nothing is marked and no save is under way.
  pub overtaken_save :
      (old new : S) (st : Store S)
      → st.in_flight ≡ []
      → finish_save 0 true (finish_save 1 true (begin_save (put new (begin_save (put old st)))))
        ≡ record st { current = new; dirty = false; stored = some old }
  unfolding put begin_save finish_save take_out
  overtaken_save old new st e = ground (arith, e)
