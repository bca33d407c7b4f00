-- ===== src/Chatlog/Tables.antt =====
-- internal/chatlog/chatlog.go: `Logger`, with the two tables of the database as lists of rows in
-- the order of their identifiers. A statement that the database refuses is not modelled.
pub mod Acks
pub mod Numbered
pub mod Listing
use gomeshcom_client.Prelude.{
  ℕ, suc, ◌-◌, Bool, true, false, not, ◌&&◌, ◌||◌, List, [], ◌∷◌, ◌++◌, Option, none, some, map,
  is_empty, drop, if◌then◌else◌, ltb, ◌==◌,
}
use gomeshcom_client.Text.{
  Text, codes, text_eq, to_upper, trim_space, has_prefix, trim_prefix, trim_suffix, index,
}
use gomeshcom_client.Map.{Map, lookup, insert}
use gomeshcom_client.Meshcom.Tags.{AckStatus, ack_status_and_sequence_id}
use gomeshcom_client.Meshcom.Notice.{is_store_notice}
use gomeshcom_client.Chatlog.Ids.{
  dm_prefix, public_prefix, broadcast_id, jsonl, filename_for_msg, conversation_id, dm_peer,
  record_matches_ssid, valid_conversation_id,
}
use gomeshcom_client.Chatlog.Records.{
  Ack, Record, TextMessage, record_of, failed_record, record_dedupe_window,
}

pub record Row : Type 0 where
  pub id : ℕ
  pub conversation : Text
  pub entry : Record

pub record Log : Type 0 where
  pub public : List Row
  pub dm : List Row
  pub next_id : ℕ

abbrev pub is_unacked : Option Ack → Bool
is_unacked none = true
is_unacked (some a) = false

abbrev pub outbound : Text
outbound = codes "outbound"

-- The tests of the update, on a message of the operator that waits for this acknowledgement.
-- `stamp_le` compares the texts of two times, as the query does.
unfoldable pub awaits : (ℕ → ℕ → Bool) → Text → Text → Text → ℕ → Row → Bool
awaits stamp_le conversation sequence origin ack_at row =
    text_eq row.conversation conversation
    && (text_eq row.entry.direction outbound
        && (text_eq row.entry.sequence_id sequence
            && (is_unacked row.entry.ack
                && (text_eq (to_upper row.entry.dst) (to_upper origin)
                    && (stamp_le (ack_at - record_dedupe_window) row.entry.received_at
                        && stamp_le row.entry.received_at ack_at)))))

-- `ORDER BY received_at DESC, id DESC LIMIT 1`
unfoldable pub later : (ℕ → ℕ → Bool) → Option Row → Row → Row
later stamp_le none row = row
later stamp_le (some best) row =
    if stamp_le best.entry.received_at row.entry.received_at then row else best

unfoldable pub newest : (ℕ → ℕ → Bool) → (Row → Bool) → Option Row → List Row → Option Row
newest stamp_le p best [] = best
newest stamp_le p best (row ∷ rows) =
    newest stamp_le p (if p row then some (later stamp_le best row) else best) rows

unfoldable pub acknowledge : ℕ → Ack → Row → Row
acknowledge id a row =
    if row.id == id then record row { entry = record row.entry { ack = some a } } else row

abbrev pub ack_of : AckStatus → Record → Ack
ack_of status rec = record {
  status = status;
  received_at = rec.received_at;
  src = rec.src;
  src_type = rec.src_type;
  rssi = rec.rssi;
  snr = rec.snr;
  via = rec.via;
}

unfoldable pub acknowledge_newest : Option Row → Ack → List Row → List Row
acknowledge_newest none a rows = rows
acknowledge_newest (some row) a rows = map (acknowledge row.id a) rows

unfoldable pub update_recent_outbound_ack : (ℕ → ℕ → Bool) → Text → Record → List Row → List Row
update_recent_outbound_ack stamp_le conversation rec rows =
    elim (ack_status_and_sequence_id rec.msg) [
      | none ↦ rows
      | some (status, sequence) ↦
          let origin = to_upper (trim_space rec.src) in
          if is_empty sequence || is_empty origin
          then rows
          else acknowledge_newest
              (newest stamp_le (awaits stamp_le conversation sequence origin rec.received_at) none
                rows)
              (ack_of status rec) rows
    ]

-- What the table of public messages has no column for reads back empty.
unfoldable pub public_record : Record → Record
public_record rec = record rec { sequence_id = []; direction = []; delivery_status = [] }

-- `appendSQLite`
unfoldable pub append_sqlite : (ℕ → ℕ → Bool) → Text → Record → Log → Log
append_sqlite stamp_le conversation rec log =
    let row : Row = record { id = log.next_id; conversation = conversation; entry = rec } in
    if has_prefix dm_prefix conversation
    then record log {
      next_id = suc log.next_id;
      dm = update_recent_outbound_ack stamp_le conversation rec (log.dm ++ (row ∷ []));
    }
    else record log {
      next_id = suc log.next_id;
      public = log.public ++ (record row { entry = public_record rec } ∷ []);
    }

-- `appendRecord`; an empty name is a message that is dropped.
unfoldable pub append_record : (ℕ → ℕ → Bool) → Text → Record → Log → Log
append_record stamp_le name rec log =
    if is_empty name then log else append_sqlite stamp_le (trim_suffix jsonl name) rec log

unfoldable pub append : (ℕ → ℕ → Bool) → Text → TextMessage → ℕ → Log → Log
append stamp_le my_call m received_at log =
    append_record stamp_le (filename_for_msg m.source m.destination my_call)
      (record_of m received_at) log

unfoldable pub append_failed : (ℕ → ℕ → Bool) → Text → Text → Text → ℕ → Log → Log × Record
append_failed stamp_le source destination message received_at log =
    let rec = failed_record source destination message received_at in
    (append_record stamp_le (filename_for_msg source destination source) rec log, rec)

-- `SELECT … WHERE conversation_id = ?`
unfoldable pub rows_in : Text → List Row → List Row
rows_in id [] = []
rows_in id (row ∷ rows) =
    let rest = rows_in id rows in if text_eq row.conversation id then row ∷ rest else rest

-- `DELETE … WHERE conversation_id = ?`
unfoldable pub rows_out : Text → List Row → List Row
rows_out id [] = []
rows_out id (row ∷ rows) =
    let rest = rows_out id rows in if text_eq row.conversation id then rest else row ∷ rest

abbrev pub table_of : Text → Log → List Row
table_of id log = if has_prefix dm_prefix id then log.dm else log.public

-- `Remove`; `none` is `ErrInvalidID`.
unfoldable pub remove : Text → Log → Option Log
remove id log =
    if not (valid_conversation_id id)
    then none
    else if has_prefix dm_prefix id
    then some (record log { dm = rows_out id log.dm })
    else some (record log { public = rows_out id log.public })

unfoldable pub any_matches : Text → List Row → Bool
any_matches ssid [] = false
any_matches ssid (row ∷ rows) =
    record_matches_ssid row.entry.src row.entry.dst ssid || any_matches ssid rows

-- `FileContainsSSID`
unfoldable pub file_contains_ssid : Text → Text → Log → Option Bool
file_contains_ssid id ssid log =
    if not (valid_conversation_id id)
    then none
    else some (any_matches ssid (rows_in id (table_of id log)))

pub record Conversation : Type 0 where
  pub id : Text
  pub kind : Text
  pub label : Text
  pub last_seen : ℕ
  pub size : ℕ

abbrev pub zero_conversation : Conversation
zero_conversation = record { id = []; kind = []; label = []; last_seen = 0; size = 0 }

-- `byID[id]`
unfoldable pub conversation_at : Text → Map Conversation → Conversation
conversation_at id m = elim (lookup id m) [ none ↦ zero_conversation | some c ↦ c ]

unfoldable pub count_row : Row → Conversation → Conversation
count_row row c = record c {
  id = row.conversation;
  size = suc c.size;
  last_seen = if ltb c.last_seen row.entry.received_at then row.entry.received_at else c.last_seen;
}

-- The loop of `listSQLite`.
unfoldable pub list_onto : Map Conversation → List Row → Map Conversation
list_onto by_id [] = by_id
list_onto by_id (row ∷ rows) =
    list_onto
      (if not (valid_conversation_id row.conversation) || is_store_notice row.entry.msg
        then by_id
        else insert row.conversation (count_row row (conversation_at row.conversation by_id)) by_id)
      rows

unfoldable pub peer_label : Text → Text
peer_label rest = elim (index b'_' rest) [ none ↦ rest | some i ↦ drop (suc i) rest ]

unfoldable pub apply_conversation_label : Conversation → Conversation
apply_conversation_label c =
    if text_eq c.id broadcast_id
    then record c { kind = codes "broadcast"; label = codes "Broadcast" }
    else if has_prefix public_prefix c.id
    then record c { kind = codes "channel"; label = trim_prefix public_prefix c.id }
    else record c { kind = codes "dm"; label = peer_label (trim_prefix dm_prefix c.id) }
