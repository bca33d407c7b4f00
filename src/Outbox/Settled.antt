-- ===== src/Outbox/Settled.antt =====
-- internal/outbox/outbox.go: what an operator sees of a message that was sent.
use gomeshcom_client.Prelude.{
  ℕ, suc, ◌^◌, ◌<◌, ◌≡◌, ◌⊎◌, sym, true, false, inl, inr, none, some, arith, Bool-cases,
  Option-cases, is_empty,
}
use gomeshcom_client.Text.{Text, before, trim_space}
use gomeshcom_client.Text.Search.{text_eq_iff, text_eq_refl}
use gomeshcom_client.Map.{lookup, lookup-insert, lookup-delete}
use gomeshcom_client.Outbox.{
  PendingMessage, Outbox, new_outbox, match_key, key_of, ids_of, register, remove_locked,
  take_pending, confirm_taken, expire, candidate, with_id, echo_origin, confirm, cancel,
}
use gomeshcom_client.Outbox.Index.{take_pending-eq-some, take_pending-eq-none}
use gomeshcom_client.Outbox.Serial.{IsNumbered-is_empty}
use gomeshcom_client.Outbox.Invariant.{
  IsIndexed, new_outbox-IsIndexed, register-IsIndexed, remove_locked-IsIndexed,
}
use gomeshcom_client.Outbox.Confirm.{by_key, by_search, confirm-Confirmed, confirm-IsIndexed}

expire-IsIndexed : {o : Outbox} (id : Text) → IsIndexed o → IsIndexed (expire id o).0
unfolding expire remove_locked
expire-IsIndexed {o} id i = elim (Option-cases (lookup id o.pending)) [
  | inl e ↦ rw (e, expire) i
  | inr (p, e) ↦
      let n : id ≡ p.id = sym (i.named id p e) in
      rw (e, expire) (rw n (remove_locked-IsIndexed p i (rw n at e)))
]

cancel-IsIndexed : {o : Outbox} (id : Text) → IsIndexed o → IsIndexed (cancel id o).0
unfolding cancel
cancel-IsIndexed {o} id i = elim (Bool-cases (is_empty id)) [
  | inl e ↦ rw e i
  | inr n ↦ rw n (elim (Option-cases (lookup id o.pending)) [
    | inl e ↦ rw (e, cancel) i
    | inr (p, e) ↦ rw (e, cancel) (remove_locked-IsIndexed p i (ground (arith, i.named id p e)))
  ])
]

-- One call on the outbox, in any order: callers, and timers that have fired.
pub data Step (o : Outbox) : Outbox → Type 0 where
  registers :
      (stamp source destination message : Text) (now : ℕ)
      → suc o.next_id < 10 ^ 20
      → Step o (register stamp source destination message now o).0
  confirms : (source destination message : Text) → Step o (confirm source destination message o).0
  cancels : (id : Text) → Step o (cancel id o).0
  expires : (id : Text) → Step o (expire id o).0

pub data Reach (ttl : ℕ) : Outbox → Type 0 where
  start : Reach ttl (new_outbox ttl)
  next : {o o' : Outbox} → Reach ttl o → Step o o' → Reach ttl o'

Step-IsIndexed : {o o' : Outbox} → Step o o' → IsIndexed o → IsIndexed o'
Step-IsIndexed (registers stamp source destination message now h) i =
    register-IsIndexed stamp source destination message now h i
Step-IsIndexed (confirms source destination message) i =
    confirm-IsIndexed source destination message i
Step-IsIndexed (cancels id) i = cancel-IsIndexed id i
Step-IsIndexed (expires id) i = expire-IsIndexed id i

-- In every state that calls and timers can reach from a new outbox, the table and the index agree:
-- a message is pending under its own identifier, which its key lists, no key lists a message of
-- another key, no identifier stands twice, and a settled message has no timer.
pub Reach-IsIndexed : {ttl : ℕ} {o : Outbox} → Reach ttl o → IsIndexed o
Reach-IsIndexed {ttl} start = new_outbox-IsIndexed ttl
Reach-IsIndexed (next r s) = Step-IsIndexed s (Reach-IsIndexed r)

-- What a confirmed message was, and what is left of it.
pub record IsSettled (o o' : Outbox) (p : PendingMessage) : Type 0 where
  pub was_pending : lookup p.id o.pending ≡ some p
  pub is_gone : lookup p.id o'.pending ≡ none
  pub has_no_timer : lookup p.id o'.timers ≡ none
  pub never_fails : expire p.id o' ≡ (o', none)
  pub never_cancels : cancel p.id o' ≡ (o', false)

settled :
    {o o' : Outbox} {p : PendingMessage}
    → lookup p.id o.pending ≡ some p
    → lookup p.id o'.pending ≡ none
    → lookup p.id o'.timers ≡ none
    → IsSettled o o' p
unfolding expire cancel
settled {o} {o'} {p} a b c = record {
  was_pending = a;
  is_gone = b;
  has_no_timer = c;
  never_fails = rw (b, expire);
  never_cancels = ground arith;
}

-- A message that `Confirm` returns was pending and matches the echo, by its key or by the tests of
-- the search. Afterwards it is neither pending nor timed: its timer, if it fires all the same,
-- reports no failure, and it cannot be cancelled.
pub confirm-IsSettled :
    (source destination message : Text) (o o' : Outbox) (p : PendingMessage)
    → IsIndexed o
    → confirm source destination message o ≡ (o', some p)
    → IsSettled o o' p
      × ((key_of p ≡ match_key (echo_origin source) (trim_space destination) message)
          ⊎ (candidate (echo_origin source) destination message p ≡ true))
unfolding confirm_taken with_id remove_locked
confirm-IsSettled source destination message o o' p i h =
    elim (confirm-Confirmed source destination message o o' p i.unique h) [
      | by_key t e r ↦
          let key = match_key (echo_origin source) (trim_space destination) message in
          let (found, at, _, _) = take_pending-eq-some o.pending (ids_of key o.by_key) t e in
          let named = i.named t.id t.entry found in
          (
            settled (ground (arith, found, named))
                (ground (arith, named, lookup-delete t.id p.id o.pending, text_eq_iff t.id p.id))
                (ground (arith, named, lookup-delete t.id p.id o.timers, text_eq_iff t.id p.id)),
            inl (ground (arith, i.keyed key t.id t.entry at found)),
          )
      | by_search e id l c r ↦ (
        settled (ground (arith, i.named id p l))
            (ground (arith, lookup-delete p.id p.id o.pending, text_eq_refl p.id))
            (ground (arith, lookup-delete p.id p.id o.timers, text_eq_refl p.id)),
        inr c,
      )
    ]

-- An exact echo of a pending message confirms a message with that key.
pub confirm_echo :
    (source destination message id : Text) (o : Outbox) (p : PendingMessage)
    → IsIndexed o
    → lookup id o.pending ≡ some p
    → key_of p ≡ match_key (echo_origin source) (trim_space destination) message
    → (q : PendingMessage) × ((confirm source destination message o).1 ≡ some q)
      × (key_of q ≡ key_of p)
unfolding confirm confirm_taken with_id
confirm_echo source destination message id o p i l k =
    let key = match_key (echo_origin source) (trim_space destination) message in
    elim (Option-cases (take_pending o.pending (ids_of key o.by_key))) [
      | inl e ↦ absurd (
          ground
            (arith, take_pending-eq-none o.pending (ids_of key o.by_key) id e, i.listed id p l))
      | inr (t, e) ↦
          let (found, at, _, _) = take_pending-eq-some o.pending (ids_of key o.by_key) t e in
          let named = i.named t.id t.entry found in
          let full = IsNumbered-is_empty (i.numbered key t.id at) in
          (
            t.entry,
            rw (e, confirm) (ground (arith, named, full)),
            ground (arith, i.keyed key t.id t.entry at found),
          )
    ]

registered :
    (stamp source destination message : Text) (now : ℕ) (o : Outbox)
    → lookup
        (register stamp source destination message now o).1.id
        (register stamp source destination message now o).0.pending
      ≡ some (register stamp source destination message now o).1
unfolding register
registered stamp source destination message now o =
    let p = (register stamp source destination message now o).1 in
    ground (arith, lookup-insert p.id p.id p o.pending, text_eq_refl p.id)

echoed :
    (stamp source destination message echo : Text) (now : ℕ) (o : Outbox)
    → before b',' echo ≡ source
    → key_of (register stamp source destination message now o).1
      ≡ match_key (echo_origin echo) (trim_space destination) message
unfolding register echo_origin
echoed stamp source destination message echo now o b = rw b

-- A message that was just registered is confirmed by its echo, which may carry relays behind the
-- source: some message with its key is returned, this one or an earlier one.
pub register-confirm :
    (stamp source destination message echo : Text) (now : ℕ) (o : Outbox)
    → suc o.next_id < 10 ^ 20
    → IsIndexed o
    → before b',' echo ≡ source
    → (q : PendingMessage) × ((confirm echo destination message
          (register stamp source destination message now o).0).1
        ≡ some q)
      × (key_of q ≡ key_of (register stamp source destination message now o).1)
register-confirm stamp source destination message echo now o h i b =
    let s = register stamp source destination message now o in
    confirm_echo echo destination message s.1.id s.0 s.1
      (register-IsIndexed stamp source destination message now h i)
      (registered stamp source destination message now o)
      (echoed stamp source destination message echo now o b)
