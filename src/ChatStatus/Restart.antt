-- ===== src/ChatStatus/Restart.antt =====
-- internal/chatstatus/status.go: the read state across a restart.
use gomeshcom_client.Prelude.{
  ℕ, ◌≡◌, refl, Bool, false, List, [], ◌∷◌, Option, none, some, arith, Bool-cases, inl, inr,
}
use gomeshcom_client.Text.{Text}
use gomeshcom_client.Text.Search.{text_eq_iff}
use gomeshcom_client.Map.{Map, lookup, delete, has, IsUnique, insert-IsUnique, delete-IsUnique}
use gomeshcom_client.Saving.{Store, put, begin_save, finish_save}
use gomeshcom_client.Saving.Lost.{IsKept, put-IsKept, begin_save-IsKept, finish_save-IsKept}
use gomeshcom_client.ChatStatus.{
  Entry, entry_at, read_at, ChatStatus, rows_of, load, new_status, mark_read, remove, Row, DmRow,
  snapshot,
}
use gomeshcom_client.ChatStatus.Unread.{snapshot-unread}

-- The snapshot written last; a database that was never written has no rows.
abbrev pub or_empty : Option (Map Entry) → Map Entry
or_empty none = []
or_empty (some m) = m

lookup-rows_of : (c : Text) (m : Map Entry) → lookup c m ≡ none → lookup c (rows_of m) ≡ none
unfolding lookup rows_of
lookup-rows_of c [] h = refl
lookup-rows_of c ((k, e) ∷ m) h = ground (arith, lookup-rows_of c m)

read_at-rows_of :
    (c : Text) (m : Map Entry) → IsUnique m → read_at c (rows_of m) ≡ (entry_at c m).last_read
unfolding read_at entry_at lookup rows_of
read_at-rows_of c [] u = refl
read_at-rows_of c ((k, e) ∷ m) (n, u) =
    ground (arith, text_eq_iff k c, lookup-rows_of k m n, read_at-rows_of c m u)

last_read-load : (c : Text) (rows : Map ℕ) → (entry_at c (load rows)).last_read ≡ read_at c rows
unfolding read_at entry_at lookup load
last_read-load c [] = refl
last_read-load c ((k, t) ∷ rows) = ground (arith, last_read-load c rows)

lookup-load : (c : Text) (rows : Map ℕ) → lookup c rows ≡ none → lookup c (load rows) ≡ none
unfolding lookup load
lookup-load c [] h = refl
lookup-load c ((k, t) ∷ rows) h = ground (arith, lookup-load c rows)

load-IsUnique : (rows : Map ℕ) → IsUnique rows → IsUnique (load rows)
unfolding load
load-IsUnique [] u = u
load-IsUnique ((k, t) ∷ rows) (n, u) = (lookup-load k rows n, load-IsUnique rows u)

-- A request, or a critical section of a save, where no save overtakes one that began earlier.
pub data Step (st : ChatStatus) : ChatStatus → Type 0 where
  reads : (conv : Text) (ts : ℕ) → Step st (mark_read conv ts st)
  removes : (conv : Text) → Step st (remove conv st)
  begins : Step st (begin_save st)
  finishes : (written : Bool) → Step st (finish_save 0 written st)

pub data Reach (rows : Map ℕ) : ChatStatus → Type 0 where
  start : Reach rows (new_status rows)
  next : {st st' : ChatStatus} → Reach rows st → Step st st' → Reach rows st'

Step-IsKept : {st st' : ChatStatus} → Step st st' → IsKept st → IsKept st'
unfolding mark_read remove
Step-IsKept {st} (reads conv ts) k = put-IsKept _ st
Step-IsKept {st} (removes conv) k = elim (Bool-cases (has conv st.current)) [
  | inl e ↦ rw (e, remove) (put-IsKept (delete conv st.current) st)
  | inr n ↦ rw (n, remove) k
]
Step-IsKept begins k = begin_save-IsKept k
Step-IsKept (finishes written) k = finish_save-IsKept written k

begin_save-current : {S : Type 0} (st : Store S) → (begin_save st).current ≡ st.current
unfolding begin_save
begin_save-current st = ground arith

finish_save-current :
    {S : Type 0} (written : Bool) (st : Store S) → (finish_save 0 written st).current ≡ st.current
unfolding finish_save
finish_save-current written st = ground arith

Step-IsUnique : {st st' : ChatStatus} → Step st st' → IsUnique st.current → IsUnique st'.current
unfolding mark_read remove put
Step-IsUnique {st} (reads conv ts) u = insert-IsUnique conv _ st.current u
Step-IsUnique {st} (removes conv) u = elim (Bool-cases (has conv st.current)) [
  | inl e ↦ rw (e, remove) (delete-IsUnique conv st.current u)
  | inr n ↦ rw (n, remove) u
]
Step-IsUnique {st} begins u = rw (begin_save-current st) u
Step-IsUnique {st} (finishes written) u = rw (finish_save-current written st) u

Reach-lem :
    {rows : Map ℕ} {st : ChatStatus}
    → IsUnique rows
    → Reach rows st
    → IsKept st × IsUnique st.current
unfolding new_status
Reach-lem {rows} u start = (
  record { at_rest = λ d n. refl; on_its_way = λ s d n. absurd (ground arith) },
  load-IsUnique rows u,
)
Reach-lem u (next r s) = let (k, v) = Reach-lem u r in (Step-IsKept s k, Step-IsUnique s v)

-- In every state that requests and saves reach from the rows of the database, where no key stands
-- twice, with requests between the critical sections of a save and with any failed writes, as long as
-- the writes of the saves come in the order in which the saves began: where nothing is marked and no
-- save is under way, a restart on what was written last counts the same unread messages in every
-- conversation.
pub restart_counts_same :
    (rows : Map ℕ) (st : ChatStatus)
    → IsUnique rows
    → Reach rows st
    → st.dirty ≡ false
    → st.in_flight ≡ []
    → (c : Text) (public_rows : List Row) (dm_rows : List DmRow)
    → (entry_at c
        (snapshot public_rows dm_rows (new_status (rows_of (or_empty st.stored))))).unread_count
      ≡ (entry_at c (snapshot public_rows dm_rows st)).unread_count
unfolding new_status
restart_counts_same rows st u r d n c public_rows dm_rows =
    let (k, v) = Reach-lem u r in
    let st' = new_status (rows_of (or_empty st.stored)) in
    ground (
      arith,
      (snapshot-unread c public_rows dm_rows st).0,
      (snapshot-unread c public_rows dm_rows st').0,
      k.at_rest d n,
      last_read-load c (rows_of (or_empty st.stored)),
      read_at-rows_of c st.current v,
    )
