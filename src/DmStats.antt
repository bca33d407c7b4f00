-- ===== src/DmStats.antt =====
-- internal/dmstats/store.go: counters of direct messages for each callsign.
pub mod Counters
use gomeshcom_client.Prelude.{
  ℕ, ◌+◌, Bool, true, false, not, Option, none, some, List, [], ◌∷◌, if◌then◌else◌,
}
use gomeshcom_client.Text.{Text, text_eq, to_upper, trim_space}
use gomeshcom_client.Map.{Map, lookup, insert}
use gomeshcom_client.Chatlog.Ids.{base_call}

pub record Entry : Type 0 where
  pub sent : ℕ
  pub ack : ℕ

-- `in_flight` and `stored` stand for `snap` and for the table, as in the other stores.
pub record Store : Type 0 where
  pub entries : Map Entry
  pub dirty : Bool
  pub in_flight : Option (Map Entry)
  pub stored : Map Entry

unfoldable pub full_call : Text → Text
full_call destination = to_upper (trim_space destination)

-- `callsignPair`
unfoldable pub callsign_pair : Text → Text × Text
callsign_pair destination = (full_call destination, base_call (full_call destination))

-- `getOrCreate`, read: a missing entry is the zero entry.
unfoldable pub get_or_create : Text → Map Entry → Entry
get_or_create key m = elim (lookup key m) [ none ↦ record { sent = 0; ack = 0 } | some e ↦ e ]

abbrev pub bump : (Entry → Entry) → Text → Map Entry → Map Entry
bump f key m = insert key (f (get_or_create key m)) m

-- The body that `RecordSent` and `RecordAck` share.
unfoldable pub count : (Entry → Entry) → Text → Store → Store
count f destination s =
    let (full, base) = callsign_pair destination in
    let first = bump f full s.entries in
    record s { entries = if text_eq base full then first else bump f base first; dirty = true }

abbrev pub one_sent : Entry → Entry
one_sent e = record e { sent = e.sent + 1 }

abbrev pub one_ack : Entry → Entry
one_ack e = record e { ack = e.ack + 1 }

unfoldable pub record_sent : Text → Store → Store
record_sent = count one_sent

unfoldable pub record_ack : Text → Store → Store
record_ack = count one_ack

-- The first part of `save`, under the lock.
unfoldable pub begin_save : Store → Store
begin_save s = if s.dirty then record s { in_flight = some s.entries; dirty = false } else s

-- The write. Nothing follows it: a failed one leaves the store unmarked.
unfoldable pub finish_save : Bool → Store → Store
finish_save written s = elim (s.in_flight) [
  | none ↦ s
  | some snap ↦
      if written
      then record s { stored = snap; in_flight = none }
      else record s { in_flight = none }
]
