-- ===== src/Tests/Logs.antt =====
-- internal/chatlog: records that are stored, acknowledged and read again.
use gomeshcom_client.Prelude.{
  Option, negsuc, List, ◌≡◌, ◌⊎◌, ◌∷◌, ◌++◌, refl, true, false, not, [], some, none, all, leb,
}
use gomeshcom_client.Text.{
  contains, to_lower, Text, codes, upper, lower, to_upper, before, last_index, index, text_eq,
  cut_prefix, has_prefix, trim_prefix, trim_suffix, trim_left, trim_right, trim_space, push_head,
  split,
}
use gomeshcom_client.Meshcom.Tags.{
  ack, digits, after_digits, match_number, cut_fold, match_tag, match_optional_tag, search_anchored,
  search_tag, ack_status_and_sequence_id, match_sequence, message_sequence_id,
}
use gomeshcom_client.Meshcom.Utf8.{rune_width}
use gomeshcom_client.Chatlog.Ids.{
  is_numeric, is_dm, sanitize_byte, sanitize_from, sanitize, base_call, filename, origin,
  is_foreign, interlocutor, filename_for_msg, valid_conversation_id,
}
use gomeshcom_client.Chatlog.Records.{
  Ack, Record, TextMessage, upper_relays, source_origin_and_relays, record_of, failed_record,
  received_within_dedupe_window, origin_call, same_message, is_duplicate_record, read_onto,
  read_since,
}
use gomeshcom_client.Chatlog.Records.Reading.{AreDistinct, read_since-AreDistinct}
use gomeshcom_client.Chatlog.Tables.{
  conversation_at, list_onto, Row, Log, awaits, later, newest, acknowledge, ack_of,
  acknowledge_newest, update_recent_outbound_ack, append_sqlite, append_record, append,
  append_failed,
}
use gomeshcom_client.Chatlog.Tables.Acks.{Place, acked}
use gomeshcom_client.Meshcom.Notice.{is_store_notice}
use gomeshcom_client.Chatlog.Tables.Listing.{count_in, latest_in}
use gomeshcom_client.Chatlog.Tables.Numbered.{Reach, append_acks_one}

program : Unit {0}
unfolding is_store_notice contains to_lower conversation_at list_onto upper lower to_upper before
    last_index index text_eq cut_prefix has_prefix trim_prefix trim_suffix trim_left trim_right
    trim_space push_head split digits after_digits match_number cut_fold match_tag
    match_optional_tag search_anchored search_tag ack_status_and_sequence_id match_sequence
    message_sequence_id is_numeric is_dm sanitize_byte sanitize_from rune_width sanitize base_call
    filename origin is_foreign interlocutor filename_for_msg valid_conversation_id upper_relays
    source_origin_and_relays record_of failed_record received_within_dedupe_window origin_call
    same_message is_duplicate_record read_onto read_since awaits later newest acknowledge
    acknowledge_newest update_recent_outbound_ack append_sqlite append_record append append_failed
program = tt

abbrev me : Text
me = codes "QQ1XX-7"

abbrev peer : Text
peer = codes "ZZ9ZZ-3"

abbrev conversation : Text
conversation = codes "DM_QQ1XX_ZZ9ZZ-3"

abbrev empty_log : Log
empty_log = record { public = []; dm = []; next_id = 1 }

abbrev sent : Log
sent = (append_failed leb me peer (codes "hi{12") 1000 empty_log).0

abbrev answer : TextMessage
answer = record {
  source = codes "zz9zz-3,AA1AA-1";
  source_type = codes "lora";
  destination = me;
  message = codes "QQ1XX-7 :ack12";
  message_id = codes "0A1B";
  rssi = some (negsuc 80);
  snr = none;
}

abbrev answered : Log
answered = append leb me answer 2000 sent

sent-Reach : Reach leb sent
unfolding program
sent-Reach = Reach.appends conversation (failed_record me peer (codes "hi{12") 1000) Reach.start

append_acks_one_example :
    (let p = awaits leb conversation (codes "12") peer 2000 in
      let rows =
        sent.dm
        ++ (record { id = 2; conversation = conversation; entry = record_of answer 2000 } ∷ []) in
      ((all (λ r. not (p r)) rows ≡ true) × (answered.dm ≡ rows))
      ⊎ ((row : Row) × (at : Place p rows row) × (answered.dm
            ≡ at.front ++ (acked (ack_of ack (record_of answer 2000)) row ∷ at.behind))))
unfolding program
append_acks_one_example =
    append_acks_one leb sent conversation (record_of answer 2000) ack (codes "12") sent-Reach refl
      refl refl refl

abbrev repeated : List Record
repeated = record_of answer 2000 ∷ record_of answer 3000 ∷ record_of answer 900000000000 ∷ []

read_since-AreDistinct_example :
    ((valid_conversation_id conversation ≡ false) × (read_since conversation 0 repeated ≡ none))
    ⊎ ((out : List Record) × (read_since conversation 0 repeated ≡ some out)
        × (all (λ r. leb 0 r.received_at) out ≡ true)
        × AreDistinct out)
read_since-AreDistinct_example = read_since-AreDistinct conversation 0 repeated

-- The second copy is left out, and the one behind the five minutes is not.
read_twice :
    read_since conversation 0 repeated
    ≡ some (record_of answer 2000 ∷ record_of answer 900000000000 ∷ [])
unfolding program
read_twice = refl

abbrev ack_of_first : List Row → Option Ack
ack_of_first [] = none
ack_of_first (row ∷ rows) = row.entry.ack

-- The message that was sent has the acknowledgement.
answered_ack : ack_of_first answered.dm ≡ some (ack_of ack (record_of answer 2000))
unfolding program
answered_ack = refl

-- Two rows, of which the answer is the later one.
listed : (count_in conversation answered.dm ≡ 2) × (latest_in conversation answered.dm ≡ 2000)
unfolding program
listed = (refl, refl)
