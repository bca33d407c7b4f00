-- ===== src/Tests/Packets.antt =====
-- internal/packetingest at a text message of another station.
use gomeshcom_client.Prelude.{List, ◌≡◌, ◌⊎◌, ◌∷◌, refl, true, false, [], some, none, arith}
use gomeshcom_client.Text.{
  trim_space, trim_right, trim_left, Text, codes, upper, lower, to_upper, to_lower, before,
  last_index, index, text_eq, has_prefix, cut_prefix, contains, trim_suffix,
}
use gomeshcom_client.Callsign.Grammar.{IsCallsign, one}
use gomeshcom_client.Meshcom.Tags.{
  digits, after_digits, match_number, cut_fold, match_tag, search_anchored, search_tag,
  is_ack_or_reject,
}
use gomeshcom_client.Meshcom.Notice.{is_store_notice}
use gomeshcom_client.Chatlog.Ids.{
  is_numeric, is_dm, sanitize_byte, sanitize_from, sanitize, base_call, filename, origin,
  is_foreign, interlocutor, filename_for_msg, conversation_id, status_key, file_id_for_api_id,
}
use gomeshcom_client.Chatlog.Records.{TextMessage}
use gomeshcom_client.PacketIngest.{
  Source, text, Parsed, parsed, failed, Dependencies, my_call, call_if, record_incoming_status,
  log_chat_message, store_packet, process_parsed, process,
}
use gomeshcom_client.Meshcom.Utf8.{
  valid_from, valid_string, rune_width, rune_count, rune_count_from,
}
use gomeshcom_client.Meshcom.Outgoing.{validate_outgoing_text, new_outgoing_text}
use gomeshcom_client.UdpBridge.{Bridge, sent, send_text, handle_datagram, effective_node_addr}
use gomeshcom_client.UdpBridge.Learned.{receive_all, send_text-addr}
use gomeshcom_client.PacketIngest.Filing.{stored, reported, process-text}

program : Unit {0}
unfolding validate_outgoing_text trim_space trim_right trim_left valid_string valid_from rune_width
    rune_count rune_count_from effective_node_addr handle_datagram send_text new_outgoing_text upper
    lower to_upper to_lower before last_index index text_eq has_prefix cut_prefix contains
    trim_suffix digits after_digits match_number cut_fold match_tag search_anchored search_tag
    is_ack_or_reject is_store_notice is_numeric is_dm sanitize_byte sanitize_from sanitize base_call
    filename origin is_foreign interlocutor filename_for_msg conversation_id status_key
    file_id_for_api_id my_call call_if record_incoming_status log_chat_message store_packet
    process_parsed process
program = tt

abbrev me : Text
me = codes "QQ1XX-7"

me-IsCallsign : IsCallsign me
me-IsCallsign = record {
  base = codes "QQ1XX";
  ssid = codes "-7";
  splits = refl;
  alnum = refl;
  at_least = omega arith;
  at_most = omega arith;
  suffix = one b'7' refl;
}

abbrev all_there : Dependencies
all_there = record {
  bus = true;
  receive_log = true;
  chat_log = true;
  chat_status = true;
  identity = some me;
  positions = true;
  telemetry = true;
}

abbrev greeting : TextMessage
greeting = record {
  source = codes "zz9zz-3";
  source_type = codes "lora";
  destination = me;
  message = codes "hello";
  message_id = codes "0A1B";
  rssi = none;
  snr = none;
}

abbrev node : Source
node = record { transport = codes "udp"; endpoint = codes "10.0.0.1" }

-- Every packet parses as the greeting; coordinates, telemetry and other packets are of the unit type.
abbrev parse_greeting : Text → Parsed Unit Unit Unit
parse_greeting raw = parsed (codes "msg") (text greeting)

process-text_example :
    (stored me (process parse_greeting all_there node (codes "{}")) ≡ greeting ∷ [])
    × ((reported (process parse_greeting all_there node (codes "{}")) ≡ [])
        ⊎ ((key : Text) × (reported (process parse_greeting all_there node (codes "{}")) ≡ key ∷ [])
            × (file_id_for_api_id key ≡ conversation_id (codes "zz9zz-3") me me)
            × (stored me (process parse_greeting all_there node (codes "{}")) ≡ greeting ∷ [])
            × (is_ack_or_reject (codes "hello") ≡ false)
            × (text_eq (base_call (origin (codes "zz9zz-3"))) (base_call me) ≡ false)))
unfolding program
process-text_example =
    process-text parse_greeting all_there node (codes "{}") (codes "msg") greeting refl
      me-IsCallsign

reported_key :
    reported (process parse_greeting all_there node (codes "{}")) ≡ codes "DM_QQ1XX-7_ZZ9ZZ-3" ∷ []
unfolding program
reported_key = refl

-- Empty datagrams do not parse.
abbrev parse_filled : Text → Parsed Unit Unit Unit
parse_filled [] = failed (codes "empty")
parse_filled (c ∷ raw) = parsed (codes "msg") (text greeting)

abbrev bridge : Bridge
bridge = record { node_addr = []; learned = none; disable_tx = false; dependencies = all_there }

abbrev datagrams : List (Text × Text)
datagrams =
    (codes "10.0.0.1:1799", codes "{}")
    ∷ (codes "10.0.0.2:1799", codes "{}")
    ∷ (codes "10.0.0.3:1799", [])
    ∷ []

send_text-addr_example :
    send_text
      (λ outgoing. outgoing.message)
      (receive_all parse_filled datagrams bridge)
      (codes "*")
      (codes "hi")
      150
    ≡ sent (codes "10.0.0.2:1799") (codes "hi")
unfolding program
send_text-addr_example =
    send_text-addr parse_filled (λ outgoing. outgoing.message) datagrams bridge (codes "*")
      (codes "hi") 150 refl refl refl
