-- ===== src/Outbox/Confirm.antt =====
-- internal/outbox/outbox.go: `Confirm` on the index and the table.
use gomeshcom_client.Prelude.{
  ◌≡◌, ◌⊎◌, refl, true, inl, inr, [], ◌∷◌, Option, none, some, arith, Bool-cases, Option-cases,
  if◌then◌else◌,
}
use gomeshcom_client.Text.{Text, trim_space}
use gomeshcom_client.Text.Search.{text_eq_iff, text_eq_refl}
use gomeshcom_client.Map.{Map, lookup, delete, lookup-delete, IsUnique, delete-IsUnique}
use gomeshcom_client.Outbox.{
  PendingMessage, Outbox, match_key, key_of, ids_of, remove_locked, Taken, take_pending,
  confirm_taken, candidate, older, best_match, with_id, settle, echo_origin, confirm,
}
use gomeshcom_client.Outbox.Index.{
  mem, ids_of-delete, ids_of-set_ids, take_pending-eq-some, take_pending-eq-none,
}
use gomeshcom_client.Outbox.Invariant.{IsIndexed, remove_locked-IsIndexed}

confirm_taken-IsIndexed :
    {o : Outbox} (key : Text) (t : Taken)
    → IsIndexed o
    → take_pending o.pending (ids_of key o.by_key) ≡ some t
    → IsIndexed (confirm_taken key t o).0
unfolding confirm_taken
confirm_taken-IsIndexed {o} key t i e =
    let (found, at, rest, kept) = take_pending-eq-some o.pending (ids_of key o.by_key) t e in
    record {
      named = λ id q h. ground (arith, lookup-delete t.id id o.pending, i.named id q);
      listed = λ id q h. ground (
        arith,
        lookup-delete t.id id o.pending,
        text_eq_iff t.id id,
        i.listed id q,
        text_eq_iff key (key_of q),
        ids_of-set_ids (key_of q) key t.rest o.by_key,
        kept id q,
      );
      keyed = λ k id q m h. ground (
        arith,
        lookup-delete t.id id o.pending,
        text_eq_iff key k,
        i.keyed k id q,
        ids_of-set_ids k key t.rest o.by_key,
        rest id,
      );
      numbered = λ k id m.
          i.numbered k id
            (ground (arith, text_eq_iff key k, ids_of-set_ids k key t.rest o.by_key, rest id));
      unique = delete-IsUnique t.id o.pending i.unique;
      timed = λ id h.
          ground
            (arith, lookup-delete t.id id o.pending, lookup-delete t.id id o.timers, i.timed id);
    }

-- A key whose identifiers are all settled is dropped.
drop_key-IsIndexed :
    {o : Outbox} (key : Text)
    → IsIndexed o
    → take_pending o.pending (ids_of key o.by_key) ≡ none
    → IsIndexed (record o { by_key = delete key o.by_key })
unfolding mem
drop_key-IsIndexed {o} key i e = record {
  named = i.named;
  listed = λ id q h. ground (
    arith,
    i.listed id q h,
    text_eq_iff key (key_of q),
    ids_of-delete (key_of q) key o.by_key,
    take_pending-eq-none o.pending (ids_of key o.by_key) id,
  );
  keyed = λ k id q m h. ground (arith, i.keyed k id q, ids_of-delete k key o.by_key);
  numbered = λ k id m. i.numbered k id (ground (arith, ids_of-delete k key o.by_key));
  unique = i.unique;
  timed = i.timed;
}

older-cases :
    (p : PendingMessage) (matched : Option PendingMessage)
    → (older p matched ≡ some p) ⊎ (older p matched ≡ matched)
unfolding older
older-cases p none = inl refl
older-cases p (some q) = ground arith

-- What the second loop returns is the message that it started with, or one of the table that
-- passes its tests.
best_match-found :
    (origin destination message : Text) (m : Map PendingMessage) (matched : Option PendingMessage)
    (p : PendingMessage)
    → IsUnique m
    → best_match origin destination message m matched ≡ some p
    → (matched ≡ some p)
      ⊎ ((id : Text) × (lookup id m ≡ some p) × (candidate origin destination message p ≡ true))
unfolding best_match lookup
best_match-found origin destination message [] matched p u h = inl h
best_match-found origin destination message ((id, q) ∷ m) matched p (a, u) h =
    let next = if candidate origin destination message q then older q matched else matched in
    elim (best_match-found origin destination message m next p u h) [
      | inr (j, e, c) ↦ inr (j, ground (arith, text_eq_iff id j), c)
      | inl e ↦ elim (Bool-cases (candidate origin destination message q)) [
        | inr n ↦ inl (ground arith)
        | inl c ↦ elim (older-cases q matched) [
          | inl f ↦ inr (id, ground (arith, text_eq_refl id), ground arith)
          | inr f ↦ inl (ground arith)
        ]
      ]
    ]

with_id-eq-some : (b : Option PendingMessage) (p : PendingMessage) → with_id b ≡ some p → b ≡ some p
unfolding with_id
with_id-eq-some none p h = h
with_id-eq-some (some q) p h = ground arith

settle-eq-some :
    (b : Option PendingMessage) (o o' : Outbox) (p : PendingMessage)
    → settle b o ≡ (o', some p)
    → (b ≡ some p) × (o' ≡ remove_locked p o)
unfolding settle
settle-eq-some none o o' p h = absurd (ground arith)
settle-eq-some (some q) o o' p h = ground arith

-- What `Confirm` does, by the two loops.
pub data Confirmed (source destination message : Text) (o o' : Outbox) (p : PendingMessage)
    : Type 0 where
  by_key :
      (t : Taken)
      → take_pending o.pending
          (ids_of (match_key (echo_origin source) (trim_space destination) message) o.by_key)
        ≡ some t
      → confirm_taken (match_key (echo_origin source) (trim_space destination) message) t o
        ≡ (o', some p)
      → Confirmed source destination message o o' p
  by_search :
      take_pending o.pending
          (ids_of (match_key (echo_origin source) (trim_space destination) message) o.by_key)
        ≡ none
      → (id : Text) → lookup id o.pending ≡ some p
      → candidate (echo_origin source) destination message p ≡ true
      → o'
        ≡ remove_locked p (record o {
          by_key =
              delete (match_key (echo_origin source) (trim_space destination) message) o.by_key;
        })
      → Confirmed source destination message o o' p

pub confirm-Confirmed :
    (source destination message : Text) (o o' : Outbox) (p : PendingMessage)
    → IsUnique o.pending
    → confirm source destination message o ≡ (o', some p)
    → Confirmed source destination message o o' p
unfolding confirm
confirm-Confirmed source destination message o o' p u h =
    let origin = echo_origin source in
    let key = match_key origin (trim_space destination) message in
    elim (Option-cases (take_pending o.pending (ids_of key o.by_key))) [
      | inr (t, e) ↦ by_key t e (rw (e, confirm) at h)
      | inl e ↦
          let best = best_match origin destination message o.pending none in
          let dropped = record o { by_key = delete key o.by_key } in
          let (chosen, state) = settle-eq-some (with_id best) dropped o' p (rw (e, confirm) at h) in
          elim (best_match-found origin destination message o.pending none p u
            (with_id-eq-some best p chosen)) [
              | inl n ↦ absurd (ground arith)
              | inr (id, l, c) ↦ by_search e id l c state
            ]
    ]

confirm-settle :
    (source destination message : Text) (o : Outbox)
    → IsIndexed o
    → take_pending o.pending
        (ids_of (match_key (echo_origin source) (trim_space destination) message) o.by_key)
      ≡ none
    → IsIndexed (confirm source destination message o).0
unfolding confirm settle
confirm-settle source destination message o i e =
    let origin = echo_origin source in
    let key = match_key origin (trim_space destination) message in
    let best = best_match origin destination message o.pending none in
    let dropped = drop_key-IsIndexed key i e in
    rw (e, confirm)
      (elim (Option-cases (with_id best)) [
        | inl f ↦ rw (f, settle) dropped
        | inr (p, f) ↦
            rw (f, settle)
              (elim (best_match-found origin destination message o.pending none p i.unique
                (with_id-eq-some best p f)) [
                  | inl n ↦ absurd (ground arith)
                  | inr (id, l, c) ↦
                      remove_locked-IsIndexed p dropped (ground (arith, i.named id p l, l))
                ])
      ])

pub confirm-IsIndexed :
    {o : Outbox} (source destination message : Text)
    → IsIndexed o
    → IsIndexed (confirm source destination message o).0
unfolding confirm
confirm-IsIndexed {o} source destination message i =
    let key = match_key (echo_origin source) (trim_space destination) message in
    elim (Option-cases (take_pending o.pending (ids_of key o.by_key))) [
      | inl e ↦ confirm-settle source destination message o i e
      | inr (t, e) ↦ rw (e, confirm) (confirm_taken-IsIndexed key t i e)
    ]
