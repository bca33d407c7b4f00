-- ===== src/Chatlog/Tables/Numbered.antt =====
-- internal/chatlog/chatlog.go: the identifiers of the rows, through appending and removing.
use gomeshcom_client.Prelude.{
  ℕ, suc, ◌≡◌, subst, not, refl, Bool, true, false, List, [], ◌∷◌, ◌++◌, map, Option, none, some,
  arith, all, all-append, is_empty, ltb, ◌||◌, ◌⊎◌, Bool-cases, Option-cases, inl, inr,
}
use gomeshcom_client.Text.{Text, text_eq, to_upper, trim_space, has_prefix}
use gomeshcom_client.Meshcom.Tags.{AckStatus, ack_status_and_sequence_id}
use gomeshcom_client.Chatlog.Ids.{dm_prefix, valid_conversation_id}
use gomeshcom_client.Chatlog.Records.{Ack, Record}
use gomeshcom_client.Chatlog.Tables.{
  Row, Log, awaits, newest, acknowledge, ack_of, acknowledge_newest, update_recent_outbound_ack,
  append_sqlite, rows_out, remove,
}
use gomeshcom_client.Chatlog.Tables.Acks.{
  AreNumbered, Place, acked, update_recent_outbound_ack-acked,
}

-- The rows of direct messages are numbered, below the next identifier.
pub record IsNumbered (log : Log) : Type 0 where
  pub rows : AreNumbered log.dm
  pub below : all (λ r. ltb r.id log.next_id) log.dm ≡ true

-- A pass over the rows that keeps their identifiers, and every test on them.
acknowledge-id : (id : ℕ) (a : Ack) (r : Row) → (acknowledge id a r).id ≡ r.id
unfolding acknowledge
acknowledge-id id a r = ground arith

all-acknowledge :
    (q : ℕ → Bool) (id : ℕ) (a : Ack) (rows : List Row)
    → all (λ r. q r.id) (map (acknowledge id a) rows) ≡ all (λ r. q r.id) rows
all-acknowledge q id a [] = refl
all-acknowledge q id a (r ∷ rows) = rw (acknowledge-id id a r, all-acknowledge q id a rows) refl

map-acknowledge-AreNumbered :
    (id : ℕ) (a : Ack) (rows : List Row)
    → AreNumbered rows
    → AreNumbered (map (acknowledge id a) rows)
map-acknowledge-AreNumbered id a [] n = n
map-acknowledge-AreNumbered id a (r ∷ rows) (h, n) = (
  rw (acknowledge-id id a r, all-acknowledge (λ i. ltb r.id i) id a rows) h,
  map-acknowledge-AreNumbered id a rows n,
)

append-AreNumbered :
    (rows : List Row) (row : Row)
    → AreNumbered rows
    → all (λ r. ltb r.id row.id) rows ≡ true
    → AreNumbered (rows ++ (row ∷ []))
append-AreNumbered [] row n b = (refl, tt)
append-AreNumbered (r ∷ rows) row (h, n) b = (
  ground (arith, all-append (λ s. ltb r.id s.id) rows (row ∷ [])),
  append-AreNumbered rows row n (ground arith),
)

all-weaker :
    (n : ℕ) (rows : List Row)
    → all (λ r. ltb r.id n) rows ≡ true
    → all (λ r. ltb r.id (suc n)) rows ≡ true
all-weaker n [] h = refl
all-weaker n (r ∷ rows) h = ground (arith, all-weaker n rows)

all-rows_out :
    (q : ℕ → Bool) (id : Text) (rows : List Row)
    → all (λ r. q r.id) rows ≡ true
    → all (λ r. q r.id) (rows_out id rows) ≡ true
unfolding rows_out
all-rows_out q id [] h = refl
all-rows_out q id (r ∷ rows) h = ground (arith, all-rows_out q id rows)

rows_out-AreNumbered :
    (id : Text) (rows : List Row) → AreNumbered rows → AreNumbered (rows_out id rows)
unfolding rows_out
rows_out-AreNumbered id [] n = n
rows_out-AreNumbered id (r ∷ rows) (h, n) = elim (Bool-cases (text_eq r.conversation id)) [
  | inl e ↦ rw (e, rows_out) (rows_out-AreNumbered id rows n)
  | inr m ↦
      rw (m, rows_out) (all-rows_out (λ i. ltb r.id i) id rows h, rows_out-AreNumbered id rows n)
]

AreAcked-lem :
    (found : Option Row) (a : Ack) (n : ℕ) (rows : List Row)
    → AreNumbered rows
    → all (λ r. ltb r.id n) rows ≡ true
    → AreNumbered (acknowledge_newest found a rows)
      × (all (λ r. ltb r.id n) (acknowledge_newest found a rows) ≡ true)
unfolding acknowledge_newest
AreAcked-lem none a n rows k b = (k, b)
AreAcked-lem (some row) a n rows k b = (
  map-acknowledge-AreNumbered row.id a rows k,
  rw (all-acknowledge (λ i. ltb i n) row.id a rows) b,
)

update-AreNumbered :
    (stamp_le : ℕ → ℕ → Bool) (conversation : Text) (rec : Record) (n : ℕ) (rows : List Row)
    → AreNumbered rows
    → all (λ r. ltb r.id n) rows ≡ true
    → AreNumbered (update_recent_outbound_ack stamp_le conversation rec rows)
      × (all (λ r. ltb r.id n) (update_recent_outbound_ack stamp_le conversation rec rows) ≡ true)
unfolding update_recent_outbound_ack
update-AreNumbered stamp_le conversation rec n rows k b =
    elim (Option-cases (ack_status_and_sequence_id rec.msg)) [
      | inl e ↦ rw (e, update_recent_outbound_ack) (k, b)
      | inr ((status, sequence), e) ↦
          rw (e, update_recent_outbound_ack)
            (elim (Bool-cases (is_empty sequence || is_empty (to_upper (trim_space rec.src)))) [
              | inl s ↦ rw s (k, b)
              | inr s ↦ rw s (
                  AreAcked-lem
                    (newest stamp_le
                      (awaits stamp_le conversation sequence (to_upper (trim_space rec.src))
                        rec.received_at)
                      none rows)
                    (ack_of status rec) n rows k b)
            ])
    ]

append_sqlite-IsNumbered :
    (stamp_le : ℕ → ℕ → Bool) (conversation : Text) (rec : Record) (log : Log)
    → IsNumbered log
    → IsNumbered (append_sqlite stamp_le conversation rec log)
unfolding append_sqlite
append_sqlite-IsNumbered stamp_le conversation rec log k =
    elim (Bool-cases (has_prefix dm_prefix conversation)) [
      | inr n ↦ rw n (record { rows = k.rows; below = all-weaker log.next_id log.dm k.below })
      | inl y ↦
          let row : Row = record { id = log.next_id; conversation = conversation; entry = rec } in
          let b : all (λ r. ltb r.id (suc log.next_id)) (log.dm ++ (row ∷ [])) ≡ true = ground (
            arith,
            all-append (λ r. ltb r.id (suc log.next_id)) log.dm (row ∷ []),
            all-weaker log.next_id log.dm k.below,
          ) in
          let (n, u) =
            update-AreNumbered stamp_le conversation rec (suc log.next_id) (log.dm ++ (row ∷ []))
              (append-AreNumbered log.dm row k.rows k.below) b in
          rw y (record { rows = n; below = u })
    ]

-- What the program does to the log: it appends a record to a conversation, or removes one.
pub data Reach (stamp_le : ℕ → ℕ → Bool) : Log → Type 0 where
  start : Reach stamp_le (record { public = []; dm = []; next_id = 1 })
  appends :
      {log : Log} (conversation : Text) (rec : Record)
      → Reach stamp_le log
      → Reach stamp_le (append_sqlite stamp_le conversation rec log)
  removes :
      {log log' : Log} (id : Text)
      → Reach stamp_le log
      → remove id log ≡ some log'
      → Reach stamp_le log'

remove-IsNumbered :
    (id : Text) {log log' : Log} → remove id log ≡ some log' → IsNumbered log → IsNumbered log'
unfolding remove
remove-IsNumbered id {log} {log'} e k = elim (Bool-cases (valid_conversation_id id)) [
  | inr n ↦ absurd (ground arith)
  | inl v ↦ elim (Bool-cases (has_prefix dm_prefix id)) [
    | inr n ↦
        let f : record log { public = rows_out id log.public } ≡ log' = ground arith in
        subst IsNumbered f (record { rows = k.rows; below = k.below })
    | inl y ↦
        let f : record log { dm = rows_out id log.dm } ≡ log' = ground arith in
        subst IsNumbered f (record {
          rows = rows_out-AreNumbered id log.dm k.rows;
          below = all-rows_out (λ i. ltb i log.next_id) id log.dm k.below;
        })
  ]
]

Reach-IsNumbered : {stamp_le : ℕ → ℕ → Bool} {log : Log} → Reach stamp_le log → IsNumbered log
Reach-IsNumbered start = record { rows = tt; below = refl }
Reach-IsNumbered {stamp_le} (appends {log} conversation rec r) =
    append_sqlite-IsNumbered stamp_le conversation rec log (Reach-IsNumbered r)
Reach-IsNumbered (removes id r e) = remove-IsNumbered id e (Reach-IsNumbered r)

-- In every log that appends and removals reach: appending a direct message that carries an
-- acknowledgement, with a sequence number and an origin, adds its row, and gives the
-- acknowledgement to one message of the operator that waits for it, or to none if none waits; all
-- other rows stay as they are.
pub append_acks_one :
    (stamp_le : ℕ → ℕ → Bool) (log : Log) (conversation : Text) (rec : Record) (status : AckStatus)
    (sequence : Text)
    → Reach stamp_le log
    → has_prefix dm_prefix conversation ≡ true
    → ack_status_and_sequence_id rec.msg ≡ some (status, sequence)
    → is_empty sequence ≡ false
    → is_empty (to_upper (trim_space rec.src)) ≡ false
    → (let p =
          awaits stamp_le conversation sequence (to_upper (trim_space rec.src)) rec.received_at in
        let rows =
          log.dm ++ (record { id = log.next_id; conversation = conversation; entry = rec } ∷ []) in
        let after = (append_sqlite stamp_le conversation rec log).dm in
        ((all (λ r. not (p r)) rows ≡ true) × (after ≡ rows))
        ⊎ ((row : Row) × (at : Place p rows row) × (after
              ≡ at.front ++ (acked (ack_of status rec) row ∷ at.behind))))
unfolding append_sqlite
append_acks_one stamp_le log conversation rec status sequence r y t s o =
    let k = Reach-IsNumbered r in
    let row : Row = record { id = log.next_id; conversation = conversation; entry = rec } in
    rw y (
      update_recent_outbound_ack-acked stamp_le conversation rec (log.dm ++ (row ∷ [])) status
        sequence t s o (append-AreNumbered log.dm row k.rows k.below))
