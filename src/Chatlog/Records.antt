-- ===== src/Chatlog/Records.antt =====
-- internal/chatlog/chatlog.go: `Record`, and reading the records of a conversation.
pub mod Reading
use gomeshcom_client.Prelude.{
  ℕ, ℤ, pos, suc, ◌+◌, ◌-◌, Bool, true, false, not, ◌&&◌, ◌||◌, List, [], ◌∷◌, ◌++◌, Option, none,
  some, map, is_empty, if◌then◌else◌, ltb, leb, ◌==◌,
}
use gomeshcom_client.Text.{
  Text, codes, text_eq, to_upper, trim_space, before, split, has_prefix, trim_prefix, trim_suffix,
}
use gomeshcom_client.Map.{Map, lookup, insert}
use gomeshcom_client.Meshcom.Tags.{AckStatus, ack_status_and_sequence_id, message_sequence_id}
use gomeshcom_client.Meshcom.Notice.{is_store_notice}
use gomeshcom_client.Chatlog.Ids.{
  dm_prefix, public_prefix, broadcast_id, jsonl, filename_for_msg, dm_peer, record_matches_ssid,
  valid_conversation_id,
}

-- Times are nanoseconds. An empty text, list or zero number is stored as NULL, and read back as it was.
pub record Ack : Type 0 where
  pub status : AckStatus
  pub received_at : ℕ
  pub src : Text
  pub src_type : Text
  pub rssi : ℤ
  pub snr : ℤ
  pub via : List Text

pub record Record : Type 0 where
  pub received_at : ℕ
  pub src : Text
  pub src_type : Text
  pub via : List Text
  pub dst : Text
  pub msg_id : Text
  pub sequence_id : Text
  pub msg : Text
  pub rssi : ℤ
  pub snr : ℤ
  pub direction : Text
  pub delivery_status : Text
  pub ack : Option Ack

-- `meshcom.TextMessage`, in the fields that are stored.
pub record TextMessage : Type 0 where
  pub source : Text
  pub source_type : Text
  pub destination : Text
  pub message : Text
  pub message_id : Text
  pub rssi : Option ℤ
  pub snr : Option ℤ

abbrev pub or_zero : Option ℤ → ℤ
or_zero none = pos 0
or_zero (some n) = n

-- The loop over `parts[1:]` of `sourceOriginAndRelays`.
unfoldable pub upper_relays : List Text → List Text
upper_relays [] = []
upper_relays (part ∷ parts) =
    let relay = to_upper (trim_space part) in
    let rest = upper_relays parts in if is_empty relay then rest else relay ∷ rest

abbrev pub origin_of : List Text → Text
origin_of [] = []
origin_of (part ∷ parts) = to_upper (trim_space part)

abbrev pub relays_of : List Text → List Text
relays_of [] = []
relays_of (part ∷ parts) = upper_relays parts

unfoldable pub source_origin_and_relays : Text → Text × List Text
source_origin_and_relays source = (origin_of (split b',' source), relays_of (split b',' source))

-- The record of `Append`.
unfoldable pub record_of : TextMessage → ℕ → Record
record_of m received_at =
    let (origin, relays) = source_origin_and_relays m.source in
    record {
      received_at = received_at;
      src = origin;
      src_type = m.source_type;
      via = relays;
      dst = m.destination;
      msg_id = m.message_id;
      sequence_id = message_sequence_id m.message;
      msg = m.message;
      rssi = or_zero m.rssi;
      snr = or_zero m.snr;
      direction = [];
      delivery_status = [];
      ack = none;
    }

-- The record of `AppendFailed`.
unfoldable pub failed_record : Text → Text → Text → ℕ → Record
failed_record source destination message received_at =
    let (origin, relays) = source_origin_and_relays source in
    record {
      received_at = received_at;
      src = origin;
      src_type = [];
      via = relays;
      dst = destination;
      msg_id = [];
      sequence_id = message_sequence_id message;
      msg = message;
      rssi = pos 0;
      snr = pos 0;
      direction = codes "outbound";
      delivery_status = codes "failed";
      ack = none;
    }

-- `recordDedupeWindow`, five minutes.
abbrev pub record_dedupe_window : ℕ
record_dedupe_window = 300000000000

unfoldable pub received_within_dedupe_window : ℕ → ℕ → Bool
received_within_dedupe_window left right =
    leb (left - right) record_dedupe_window && leb (right - left) record_dedupe_window

unfoldable pub origin_call : Text → Text
origin_call source = to_upper (trim_space (before b',' source))

unfoldable pub same_message : Record → Record → Bool
same_message existing candidate =
    text_eq existing.msg_id candidate.msg_id
    && (text_eq (origin_call existing.src) (origin_call candidate.src)
        && received_within_dedupe_window existing.received_at candidate.received_at)

abbrev pub any : (Record → Bool) → List Record → Bool
any p [] = false
any p (r ∷ rs) = p r || any p rs

unfoldable pub is_duplicate_record : List Record → Record → Bool
is_duplicate_record seen candidate =
    if is_empty candidate.msg_id
    then false
    else any (λ existing. same_message existing candidate) seen

-- The loop of `readSinceSQLite`, over the records in the order of the query.
unfoldable pub read_onto : ℕ → List Record → List Record → List Record
read_onto since seen [] = []
read_onto since seen (rec ∷ recs) =
    let skipped = read_onto since seen recs in
    let rest = read_onto since (if is_empty rec.msg_id then seen else seen ++ (rec ∷ [])) recs in
    if is_duplicate_record seen rec
    then skipped
    else if ltb rec.received_at since
    then rest
    else rec ∷ rest

-- `ReadSince`; `none` is `ErrInvalidID`.
unfoldable pub read_since : Text → ℕ → List Record → Option (List Record)
read_since id since recs =
    if not (valid_conversation_id id) then none else some (read_onto since [] recs)
