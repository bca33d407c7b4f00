-- ===== src/Outbox.antt =====
-- internal/outbox/outbox.go: messages that were sent and wait for their echo.
pub mod Index
pub mod Serial
pub mod Invariant
pub mod Confirm
pub mod Settled
pub mod Matching
use gomeshcom_client.Prelude.{
  ℕ, suc, ◌+◌, Bool, true, false, not, ◌&&◌, ◌||◌, List, [], ◌∷◌, ◌++◌, Option, none, some,
  is_empty, all, ltb, ◌==◌, if◌then◌else◌,
}
use gomeshcom_client.Text.{
  Text, codes, text_eq, is_digit, to_upper, trim_space, before, cut_prefix, trim_suffix,
}
use gomeshcom_client.Map.{Map, lookup, insert, delete}
use gomeshcom_client.Console.Decimal.{string_id}

-- Times are nanoseconds.
pub record PendingMessage : Type 0 where
  pub id : Text
  pub source : Text
  pub destination : Text
  pub message : Text
  pub created_at : ℕ

-- A timer is known by the identifier of its message; `ttl` is the duration, in nanoseconds.
pub record Outbox : Type 0 where
  pub ttl : ℕ
  pub next_id : ℕ
  pub pending : Map PendingMessage
  pub by_key : Map (List Text)
  pub timers : Map (Unit {0})

unfoldable pub new_outbox : ℕ → Outbox
new_outbox ttl = record { ttl = ttl; next_id = 0; pending = []; by_key = []; timers = [] }

unfoldable pub match_key : Text → Text → Text → Text
match_key source destination message =
    to_upper (trim_space source) ++ (0 ∷ (trim_space destination ++ (0 ∷ message)))

abbrev pub key_of : PendingMessage → Text
key_of p = match_key p.source p.destination p.message

-- The digits that the node appends, behind a brace and with or without the closing one.
unfoldable pub is_sequence : Text → Bool
is_sequence suffix = not (is_empty suffix) && all is_digit suffix

unfoldable pub message_matches : Text → Text → Bool
message_matches sent observed =
    if text_eq observed sent then true else elim (cut_prefix (sent ++ codes "{") observed) [
      | none ↦ false
      | some suffix ↦ is_sequence (trim_suffix (codes "}") suffix)
    ]

unfoldable pub remove_id : List Text → Text → List Text
remove_id [] target = []
remove_id (id ∷ ids) target =
    let rest = remove_id ids target in if text_eq id target then ids else id ∷ rest

-- A missing key reads as the empty list.
unfoldable pub ids_of : Text → Map (List Text) → List Text
ids_of key m = elim (lookup key m) [ none ↦ [] | some ids ↦ ids ]

-- A key with no identifier left is deleted.
unfoldable pub set_ids : Text → List Text → Map (List Text) → Map (List Text)
set_ids key ids m = if is_empty ids then delete key m else insert key ids m

-- `stamp` is the text of the wall clock.
unfoldable pub new_id : Text → Text → ℕ → Text
new_id stamp source n = stamp ++ (b'-' ∷ (trim_space source ++ (b'-' ∷ string_id n)))

unfoldable pub register : Text → Text → Text → Text → ℕ → Outbox → Outbox × PendingMessage
register stamp source destination message now o =
    let n = suc o.next_id in
    let p : PendingMessage = record {
      id = new_id stamp source n;
      source = to_upper (trim_space source);
      destination = trim_space destination;
      message = message;
      created_at = now;
    } in
    let key = key_of p in
    (
      record o {
        next_id = n;
        pending = insert p.id p o.pending;
        by_key = insert key (ids_of key o.by_key ++ (p.id ∷ [])) o.by_key;
        timers = if ltb 0 o.ttl then insert p.id tt o.timers else o.timers;
      },
      p,
    )

-- `removeLocked`
unfoldable pub remove_locked : PendingMessage → Outbox → Outbox
remove_locked p o =
    let key = key_of p in
    record o {
      pending = delete p.id o.pending;
      timers = delete p.id o.timers;
      by_key = set_ids key (remove_id (ids_of key o.by_key) p.id) o.by_key;
    }

-- The loop over `ids`: the first identifier that is still pending, and those behind it.
pub record Taken : Type 0 where
  pub id : Text
  pub entry : PendingMessage
  pub rest : List Text

unfoldable pub take_pending : Map PendingMessage → List Text → Option Taken
take_pending m [] = none
take_pending m (id ∷ ids) = elim (lookup id m) [
  | some p ↦ some (record { id = id; entry = p; rest = ids })
  | none ↦ take_pending m ids
]

-- The tests of the second loop.
unfoldable pub candidate : Text → Text → Text → PendingMessage → Bool
candidate origin destination message p =
    text_eq p.source origin
    && (text_eq p.destination (trim_space destination) && message_matches p.message message)

-- `matched.ID == "" || pending.CreatedAt.Before(matched.CreatedAt)`; `none` is a matched message
-- with no identifier.
unfoldable pub older : PendingMessage → Option PendingMessage → Option PendingMessage
older p none = some p
older p (some q) = if is_empty q.id || ltb p.created_at q.created_at then some p else some q

unfoldable pub best_match :
    Text → Text → Text → Map PendingMessage → Option PendingMessage → Option PendingMessage
best_match origin destination message [] matched = matched
best_match origin destination message ((id, p) ∷ m) matched =
    best_match origin destination message m
      (if candidate origin destination message p then older p matched else matched)

-- `matched.ID == ""`, or nothing matched.
unfoldable pub with_id : Option PendingMessage → Option PendingMessage
with_id none = none
with_id (some p) = if is_empty p.id then none else some p

-- The first loop has found an identifier.
unfoldable pub confirm_taken : Text → Taken → Outbox → Outbox × Option PendingMessage
confirm_taken key t o = (
  record o {
    pending = delete t.id o.pending;
    timers = delete t.id o.timers;
    by_key = set_ids key t.rest o.by_key;
  },
  with_id (some t.entry),
)

-- What follows the second loop.
unfoldable pub settle : Option PendingMessage → Outbox → Outbox × Option PendingMessage
settle none o = (o, none)
settle (some p) o = (remove_locked p o, some p)

unfoldable pub echo_origin : Text → Text
echo_origin source = to_upper (trim_space (before b',' source))

unfoldable pub confirm : Text → Text → Text → Outbox → Outbox × Option PendingMessage
confirm source destination message o =
    let origin = echo_origin source in
    let key = match_key origin (trim_space destination) message in
    elim (take_pending o.pending (ids_of key o.by_key)) [
      | some t ↦ confirm_taken key t o
      | none ↦
          settle (with_id (best_match origin destination message o.pending none))
            (record o { by_key = delete key o.by_key })
    ]

unfoldable pub cancel : Text → Outbox → Outbox × Bool
cancel id o =
    if is_empty id
    then (o, false)
    else elim (lookup id o.pending) [ none ↦ (o, false) | some p ↦ (remove_locked p o, true) ]

-- The message is the argument of `onFailure`.
unfoldable pub expire : Text → Outbox → Outbox × Option PendingMessage
expire id o = elim (lookup id o.pending) [
  | none ↦ (o, none)
  | some p ↦ (
    record o {
      pending = delete id o.pending;
      timers = delete id o.timers;
      by_key = set_ids (key_of p) (remove_id (ids_of (key_of p) o.by_key) id) o.by_key;
    },
    some p,
  )
]
