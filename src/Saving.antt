-- ===== src/Saving.antt =====
-- The save protocol that internal/station, internal/channelshow and internal/chatstatus share:
-- `SaveIfDirty` takes a snapshot under the lock, writes it without the lock, and takes the lock again
-- if the write has failed. It is called by the ticker of `Start` and by handlers of internal/httpapi,
-- so that several saves may be under way.
pub mod Lost
use gomeshcom_client.Prelude.{
  ℕ, zero, suc, Bool, true, false, List, [], ◌∷◌, ◌++◌, Option, none, some, if◌then◌else◌, length,
}

-- `in_flight` has the snapshots of the saves between their critical sections, the oldest first;
-- `stored` is what the last successful write left in the database.
pub record Store {ℓ} (S : Type ℓ) : Type ℓ where
  pub current : S
  pub dirty : Bool
  pub in_flight : List S
  pub stored : Option S

module _ {ℓ} {S : Type ℓ} where
  -- A new value, marked for the next save.
  unfoldable pub put : S → Store S → Store S
  put v st = record st { current = v; dirty = true }

  -- The first critical section.
  unfoldable pub begin_save : Store S → Store S
  begin_save st =
      if st.dirty
      then record st { in_flight = st.in_flight ++ (st.current ∷ []); dirty = false }
      else st

  -- The element of a number, and the others.
  unfoldable pub take_out : ℕ → List S → Option (S × List S)
  take_out n [] = none
  take_out zero (s ∷ ss) = some (s, ss)
  take_out (suc n) (s ∷ ss) = elim (take_out n ss) [
    | none ↦ none
    | some (t, rest) ↦ some (t, s ∷ rest)
  ]

  -- The write of one of the saves, and its second critical section; the flag says whether the write
  -- succeeded.
  unfoldable pub finish_save : ℕ → Bool → Store S → Store S
  finish_save n written st = elim (take_out n st.in_flight) [
    | none ↦ st
    | some (s, rest) ↦
        if written
        then record st { stored = some s; in_flight = rest }
        else record st { dirty = true; in_flight = rest }
  ]

  -- `SaveIfDirty` where no other call comes between its critical sections.
  unfoldable pub save_if_dirty : Bool → Store S → Store S
  save_if_dirty written st =
      if st.dirty then finish_save (length st.in_flight) written (begin_save st) else st
