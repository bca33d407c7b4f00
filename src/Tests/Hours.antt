-- ===== src/Tests/Hours.antt =====
-- internal/stats at a few packets.
use gomeshcom_client.Prelude.{ℕ, pos, refl, leb, ◌≡◌, true, false, [], ◌∷◌, none, some, arith}
use gomeshcom_client.Text.{
  codes, text_eq, has_prefix, trim_prefix, cut_prefix, trim_suffix, split, push_head,
}
use gomeshcom_client.Map.{lookup}
use gomeshcom_client.Chatlog.Ids.{is_numeric}
use gomeshcom_client.Console.Decimal.{string_id, digits_loop, decimal, decimal_from}
use gomeshcom_client.Stats.Keys.{
  channel_parts, channel_key, distance_range, distance_label, plus_bin, ends_in_plus, range_of,
  both, atoi, digits_value, negated, print_int, at_least_max,
}
use gomeshcom_client.Stats.Rows.{
  Tables, channel_columns, key_of_channel, distance_columns, checked_start, is_checked,
  label_of_distance, write_sqlite_stats, load_sqlite,
}
use gomeshcom_client.Stats.Written.{IsStorable}
use gomeshcom_client.Stats.Restored.{IsSameOption, load_sqlite-write_sqlite_stats}
use gomeshcom_client.Map.Numbered.{at}
use gomeshcom_client.Chatlog.Records.{TextMessage}
use gomeshcom_client.PacketIngest.{text}
use gomeshcom_client.Stats.{Store, Bucket, new_bucket, get_or_create, hour_key, read_range}
use gomeshcom_client.Stats.Counted.{AreCounted, handle-AreCounted}
use gomeshcom_client.Stats.Collector.{Event, packet_received, Environment, handle}
use gomeshcom_client.Stats.Ranges.{count_of, count_between, is_sorted, read_range-count}

abbrev empty : Store
empty = record { retention_days = 30; buckets = []; dirty = false; in_flight = none; stored = [] }

-- Nothing is known of positions.
abbrev environment : Environment Unit
environment = record {
  nonzero = λ x. false;
  haversine_km = λ a b c d. 0;
  parse_time = λ s. some 7201;
  my_call = codes "QQ1XX-7";
  get = λ call. none;
}

abbrev message : TextMessage
message = record {
  source = codes "zz9zz-3";
  source_type = codes "lora";
  destination = codes "QQ1XX-7";
  message = codes "hello";
  message_id = codes "0A1B";
  rssi = none;
  snr = none;
}

abbrev received : Event Unit Unit Unit
received = packet_received (codes "1970-01-01T02:00:01Z") (text message)

empty-AreCounted : AreCounted empty
unfolding get_or_create at new_bucket
empty-AreCounted h = ground arith

handle-AreCounted_example : AreCounted (handle environment 7300 received empty)
handle-AreCounted_example = handle-AreCounted environment 7300 received empty empty-AreCounted

abbrev three : Store
three = record empty {
  buckets = (10800, new_bucket 10800) ∷ (3600, new_bucket 3600) ∷ (7200, new_bucket 7200) ∷ [];
}

read_range-count_example :
    (count_of (λ b. true) (read_range 3700 7205 three)
      ≡ count_between (λ b. true) (hour_key 3700) (hour_key 7205) three.buckets)
    × (is_sorted (read_range 3700 7205 three) ≡ true)
read_range-count_example = read_range-count 3700 7205 three (λ b. true)

hours : Unit {0}
unfolding channel_columns channel_parts key_of_channel channel_key distance_columns checked_start
    is_checked distance_range label_of_distance distance_label plus_bin ends_in_plus range_of both
    atoi digits_value negated print_int at_least_max string_id digits_loop decimal decimal_from
    is_numeric text_eq has_prefix trim_prefix cut_prefix trim_suffix split push_head lookup at
    new_bucket
hours = tt

abbrev busy : Bucket
busy = record (new_bucket 7200) {
  dm = 1;
  position = 3;
  total = 4;
  distance_km = (codes "35-40", 2) ∷ (codes "100+", 1) ∷ [];
  channels = (codes "broadcast", 2) ∷ (codes "dm:ZZ9ZZ-3", 1) ∷ [];
}

busy-IsStorable : IsStorable busy
unfolding hours
busy-IsStorable = record {
  channels = (
    ((codes "broadcast", codes "*"), refl, refl),
    (((codes "dm", codes "ZZ9ZZ-3"), refl, refl), tt),
  );
  distances = ((pos 35, refl, refl), ((pos 100, refl, refl), tt));
  channels_unique = (refl, (refl, tt));
  distances_unique = (refl, (refl, tt));
}

load_sqlite-write_sqlite_stats_example :
    (t : Tables) × (write_sqlite_stats ((7200, busy) ∷ []) ≡ some t)
    × ((h : ℕ)
        → leb 3600 h ≡ true
        → IsSameOption (at h (load_sqlite 3600 t)) (at h ((7200, busy) ∷ [])))
unfolding hours
load_sqlite-write_sqlite_stats_example =
    load_sqlite-write_sqlite_stats ((7200, busy) ∷ []) 3600 (refl, refl, busy-IsStorable, tt)
