-- ===== src/Chatlog/Tables/Acks.antt =====
-- internal/chatlog/chatlog.go: `updateRecentOutboundAck` on the table of direct messages.
use gomeshcom_client.Prelude.{
  ℕ, ◌≡◌, subst, ◌⊎◌, refl, sym, ap, ◌∙◌, Bool, true, false, not, List, [], ◌∷◌, ◌++◌, map,
  map-append, Option, none, some, arith, all, all-append, is_empty, ltb, ◌==◌, Bool-cases,
  Option-cases, inl, inr,
}
use gomeshcom_client.Text.{Text, to_upper, trim_space}
use gomeshcom_client.Meshcom.Tags.{AckStatus, ack_status_and_sequence_id}
use gomeshcom_client.Chatlog.Records.{Ack, Record}
use gomeshcom_client.Chatlog.Tables.{
  Row, awaits, later, newest, acknowledge, ack_of, acknowledge_newest, update_recent_outbound_ack,
}

-- Identifiers grow from row to row.
abbrev pub AreNumbered : List Row → Type 0
AreNumbered [] = Unit
AreNumbered (r ∷ rs) = (all (λ s. ltb r.id s.id) rs ≡ true) × AreNumbered rs

-- A row that passes a test, with what stands around it.
pub record Place (p : Row → Bool) (rows : List Row) (row : Row) : Type 0 where
  pub front : List Row
  pub behind : List Row
  pub splits : rows ≡ front ++ (row ∷ behind)
  pub passes : p row ≡ true

place-cons :
    {p : Row → Bool} {rows : List Row} {row : Row} (r : Row)
    → Place p rows row
    → Place p (r ∷ rows) row
place-cons r at = record {
  front = r ∷ at.front;
  behind = at.behind;
  splits = ap (◌∷◌ r) at.splits;
  passes = at.passes;
}

place-here :
    {p : Row → Bool} {rows : List Row} {row r : Row} → p r ≡ true → r ≡ row → Place p (r ∷ rows) row
place-here {p} {rows} y e = record {
  front = [];
  behind = rows;
  splits = ap (λ r. r ∷ rows) e;
  passes = rw⁻¹ e y;
}

later-cases :
    (stamp_le : ℕ → ℕ → Bool) (best : Option Row) (row : Row)
    → (later stamp_le best row ≡ row) ⊎ (best ≡ some (later stamp_le best row))
unfolding later
later-cases stamp_le none row = inl refl
later-cases stamp_le (some b) row = ground arith

newest-some :
    (stamp_le : ℕ → ℕ → Bool) (p : Row → Bool) (best : Option Row) (rows : List Row) {row : Row}
    → newest stamp_le p best rows ≡ some row
    → (best ≡ some row) ⊎ Place p rows row
unfolding newest
newest-some stamp_le p best [] h = inl h
newest-some stamp_le p best (r ∷ rows) {row} h = elim (Bool-cases (p r)) [
  | inr n ↦
      let h' : newest stamp_le p best rows ≡ some row = ground arith in
      elim (newest-some stamp_le p best rows h') [ inl e ↦ inl e | inr at ↦ inr (place-cons r at) ]
  | inl y ↦
      let found = later stamp_le best r in
      let h' : newest stamp_le p (some found) rows ≡ some row = ground arith in
      elim (newest-some stamp_le p (some found) rows h') [
        | inr at ↦ inr (place-cons r at)
        | inl e ↦
            let f : found ≡ row = ground arith in
            elim (later-cases stamp_le best r) [
              | inl g ↦ inr (place-here y (sym g ∙ f))
              | inr g ↦ inl (g ∙ ap some f)
            ]
      ]
]

newest-none :
    (stamp_le : ℕ → ℕ → Bool) (p : Row → Bool) (best : Option Row) (rows : List Row)
    → newest stamp_le p best rows ≡ none
    → (best ≡ none) × (all (λ r. not (p r)) rows ≡ true)
unfolding newest
newest-none stamp_le p best [] h = (h, refl)
newest-none stamp_le p best (r ∷ rows) h = ground (
  arith,
  newest-none stamp_le p best rows,
  newest-none stamp_le p (some (later stamp_le best r)) rows,
)

acknowledge_other :
    (id : ℕ) (a : Ack) (rows : List Row)
    → all (λ r. not (r.id == id)) rows ≡ true
    → map (acknowledge id a) rows ≡ rows
unfolding acknowledge
acknowledge_other id a [] h = refl
acknowledge_other id a (r ∷ rows) h = ground (arith, acknowledge_other id a rows)

AreNumbered-around :
    (front : List Row) (row : Row) (behind : List Row)
    → AreNumbered (front ++ (row ∷ behind))
    → (all (λ r. not (r.id == row.id)) front ≡ true)
      × (all (λ r. not (r.id == row.id)) behind ≡ true)
AreNumbered-around [] row behind (h, n) = (refl, larger behind h)
  where
    larger :
        (rs : List Row)
        → all (λ s. ltb row.id s.id) rs ≡ true
        → all (λ r. not (r.id == row.id)) rs ≡ true
    larger [] h = refl
    larger (r ∷ rs) h = ground (arith, larger rs)
AreNumbered-around (r ∷ front) row behind (h, n) = ground (
  arith,
  all-append (λ s. ltb r.id s.id) front (row ∷ behind),
  AreNumbered-around front row behind n,
)

-- The row with its acknowledgement.
abbrev pub acked : Ack → Row → Row
acked a row = record row { entry = record row.entry { ack = some a } }

acknowledge-around :
    (a : Ack) (front : List Row) (row : Row) (behind : List Row)
    → AreNumbered (front ++ (row ∷ behind))
    → map (acknowledge row.id a) (front ++ (row ∷ behind)) ≡ front ++ (acked a row ∷ behind)
acknowledge-around a front row behind n =
    let (f, b) = AreNumbered-around front row behind n in
    let here : acknowledge row.id a row ≡ acked a row = unfold acknowledge in ground arith in
    map-append (acknowledge row.id a) front (row ∷ behind)
    ∙ cc (acknowledge_other row.id a front f, acknowledge_other row.id a behind b, here)

-- An acknowledgement of a sequence number, from a station, changes at most one row: if no message
-- of the operator waits for it nothing changes, and otherwise one that does gets it.
pub update_recent_outbound_ack-acked :
    (stamp_le : ℕ → ℕ → Bool) (conversation : Text) (rec : Record) (rows : List Row)
    (status : AckStatus) (sequence : Text)
    → ack_status_and_sequence_id rec.msg ≡ some (status, sequence)
    → is_empty sequence ≡ false
    → is_empty (to_upper (trim_space rec.src)) ≡ false
    → AreNumbered rows
    → (let p =
          awaits stamp_le conversation sequence (to_upper (trim_space rec.src)) rec.received_at in
        let after = update_recent_outbound_ack stamp_le conversation rec rows in
        ((all (λ r. not (p r)) rows ≡ true) × (after ≡ rows))
        ⊎ ((row : Row) × (at : Place p rows row) × (after
              ≡ at.front ++ (acked (ack_of status rec) row ∷ at.behind))))
unfolding update_recent_outbound_ack acknowledge_newest
update_recent_outbound_ack-acked stamp_le conversation rec rows status sequence t s o n =
    let p = awaits stamp_le conversation sequence (to_upper (trim_space rec.src)) rec.received_at in
    elim (Option-cases (newest stamp_le p none rows)) [
      | inl e ↦ inl ((newest-none stamp_le p none rows e).1, ground arith)
      | inr (row, e) ↦ elim (newest-some stamp_le p none rows e) [
        | inl c ↦ absurd (ground arith)
        | inr at ↦ inr (
          row,
          at,
          (ground arith)
              ∙ ap (map (acknowledge row.id (ack_of status rec))) at.splits
              ∙ acknowledge-around (ack_of status rec) at.front row at.behind
                  (subst AreNumbered at.splits n),
        )
      ]
    ]
