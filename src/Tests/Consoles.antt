-- ===== src/Tests/Consoles.antt =====
-- internal/consolecodec at concrete streams and commands.
use gomeshcom_client.Prelude.{◌≡◌, refl, List, [], ◌∷◌, ◌++◌, some, none, arith}
use gomeshcom_client.Text.{
  Text, codes, upper, to_upper, index, text_eq, cut_prefix, trim_suffix, trim_left, trim_right,
  trim_space,
}
use gomeshcom_client.Callsign.{normalize, match_ssid, match_base, match_pattern, is_valid}
use gomeshcom_client.Callsign.Grammar.{IsCallsign, one}
use gomeshcom_client.Meshcom.Utf8.{
  follow, wide_rune, rune_width, valid_from, valid_string, rune_count_from, rune_count,
}
use gomeshcom_client.Meshcom.Outgoing.{validate_outgoing_text}
use gomeshcom_client.Console.Decimal.{decimal_from, decimal, digits_loop, string_id}
use gomeshcom_client.Console.Encoder.{
  ok, err, command_injection, self_direct_message, TextCommand, is_decimal, is_local_callsign,
  encode_channel, encode_destination, frame, encode_valid, encode,
}
use gomeshcom_client.Console.Encoder.Safety.{IsCommand, encode-IsCommand}
use gomeshcom_client.Console.Extract.{
  close_brace, scan_step, scan, matching_object_end, is_capture_time, trim_capture_prefix, ext_body,
  extract_object, extract_ext_payload, out_marker, record_too_long,
}
use gomeshcom_client.Console.Extract.Scan.{Items, braces}
use gomeshcom_client.Console.Decoder.{
  empty_result, note_extracted, note_record, finish_record, consume_byte, feed_onto, feed, flush,
}
use gomeshcom_client.Console.Decoder.Lines.{
  IsBounded, fresh, note_line, unlines, note_lines, feed-unlines, feed-IsBounded,
}
use gomeshcom_client.Console.Decoder.Payloads.{IsMarker, feed-Items}

texts : Unit {0}
unfolding upper to_upper index text_eq cut_prefix trim_suffix trim_left trim_right trim_space
texts = tt

decoding : Unit {0}
unfolding texts close_brace scan_step scan matching_object_end is_capture_time trim_capture_prefix
    ext_body extract_object extract_ext_payload note_extracted note_record finish_record
    consume_byte feed_onto feed flush note_line
decoding = tt

encoding : Unit {0}
unfolding texts normalize match_ssid match_base match_pattern is_valid follow wide_rune rune_width
    valid_from valid_string rune_count_from rune_count validate_outgoing_text decimal_from decimal
    digits_loop string_id is_decimal is_local_callsign encode_channel encode_destination frame
    encode_valid encode
encoding = tt

abbrev object : Text
object = codes "{a{}}"

stream_example :
    (feed
      (codes "[12:00:00] [EXT] Out: x {a{}} y\r\nnoise\n0123456789012345678901234567890123456789\n")
      (fresh 38)).1
    ≡ record { payloads = object ∷ []; errors = record_too_long ∷ [] }
unfolding decoding
stream_example = refl

abbrev lines : List Text
lines = codes "noise" ∷ codes "[EXT] Out: {}" ∷ []

feed-unlines_example :
    feed (unlines lines) (fresh 20) ≡ (fresh 20, note_lines 20 lines empty_result)
feed-unlines_example = feed-unlines lines 20 refl

fresh-IsBounded : IsBounded (fresh 3)
fresh-IsBounded = record { bounded = omega arith; dropped = λ e. refl }

feed-IsBounded_example : IsBounded (feed (codes "abcde") (fresh 3)).0
feed-IsBounded_example = feed-IsBounded (codes "abcde") (fresh 3) fresh-IsBounded

inner : Items (codes "a{}")
inner =
    Items.byte b'a' (ground arith) (ground arith) (ground arith)
      (Items.object Items.done Items.done)

feed-Items_example :
    feed (((out_marker ++ ([] ++ braces (codes "a{}"))) ++ (b'\r' ∷ [])) ++ (b'\n' ∷ [])) (fresh 99)
    ≡ (fresh 99, record { payloads = braces (codes "a{}") ∷ []; errors = [] })
feed-Items_example = feed-Items [] 99 IsMarker.out inner refl refl (omega arith)

abbrev me : Text
me = codes "IU5PMP-1"

me-IsCallsign : IsCallsign me
me-IsCallsign = record {
  base = codes "IU5PMP";
  ssid = codes "-1";
  splits = refl;
  alnum = refl;
  at_least = omega arith;
  at_most = omega arith;
  suffix = one b'1' refl;
}

abbrev command : TextCommand
command = record { destination = codes " 0222"; message = codes "hi"; max_message_runes = 150 }

encode_examples :
    (encode (some me) command ≡ ok (codes "::{222}hi\r\n"))
    × (encode (some me) (record command { message = codes "a\nb" }) ≡ err command_injection)
    × (encode (some me) (record command { destination = codes "iu5pmp-1" })
        ≡ err self_direct_message)
    × (encode none (record command { destination = codes "*" }) ≡ ok (codes "::hi\r\n"))
unfolding encoding
encode_examples = (refl, refl, refl, refl)

encode-IsCommand_example : IsCommand (codes "::{222}hi\r\n")
encode-IsCommand_example =
    encode-IsCommand (some me) command (codes "::{222}hi\r\n") encode_examples.0
