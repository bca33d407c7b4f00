-- ===== src/Stats/Rows.antt =====
-- internal/stats/store.go: the three tables, written by `writeSQLiteStats` and read by `loadSQLite`,
-- with the primary keys and checks of internal/storage/schema.go. Rows come in any order; the newest
-- stands first. The end of a distance is not a column, since its check says that it is start + 5.
use gomeshcom_client.Prelude.{
  ℕ, ◌+◌, ℤ, pos, negsuc, Bool, false, ◌&&◌, List, [], ◌∷◌, Option, none, some, if◌then◌else◌, leb,
  ◌==◌,
}
use gomeshcom_client.Text.{Text, text_eq}
use gomeshcom_client.Map.{Map, insert}
use gomeshcom_client.Map.Numbered.{NumberMap, at, put}
use gomeshcom_client.Stats.{Bucket}
use gomeshcom_client.Stats.Keys.{
  channel_parts, channel_key, distance_range, distance_label, plus_bin,
}
use gomeshcom_client.Stats.Table.{Row, write_map}

pub record Tables : Type 0 where
  pub hourly : List Bucket
  pub channels : List (Row (Text × Text))
  pub distances : List (Row ℤ)

abbrev pub no_rows : Tables
no_rows = record { hourly = []; channels = []; distances = [] }

unfoldable pub channel_columns : Text → Option (Text × Text)
channel_columns key = some (channel_parts key)

unfoldable pub key_of_channel : Text × Text → Text
key_of_channel (kind, target) = channel_key kind target

unfoldable pub same_channel : Text × Text → Text × Text → Bool
same_channel (kind, target) (kind', target') = text_eq kind kind' && text_eq target target'

-- `CHECK (bucket_start_km >= 0)` and `CHECK (bucket_end_km = bucket_start_km + 5)`
unfoldable pub is_checked : ℤ × ℤ → Bool
is_checked (pos s, pos e) = e == s + 5
is_checked _ = false

unfoldable pub checked_start : ℤ × ℤ → Option ℤ
checked_start range = if is_checked range then some (range.0) else none

unfoldable pub distance_columns : Text → Option ℤ
distance_columns label = elim (distance_range label) [
  | none ↦ none
  | some range ↦ checked_start range
]

unfoldable pub label_of_distance : ℤ → Text
label_of_distance start = distance_label start (plus_bin start)

unfoldable pub same_start : ℤ → ℤ → Bool
same_start (pos a) (pos b) = a == b
same_start (negsuc a) (negsuc b) = a == b
same_start _ _ = false

-- The columns of `stats_hourly`.
unfoldable pub counters : Bucket → Bucket
counters b = record b { distance_km = []; channels = [] }

unfoldable pub hour_of : ℕ → List Bucket → Option Bucket
hour_of h [] = none
hour_of h (b ∷ bs) = let rest = hour_of h bs in if b.hour_unix == h then some b else rest

abbrev pub write_channels : ℕ → Map ℕ → List (Row (Text × Text)) → Option (List (Row (Text × Text)))
write_channels = write_map channel_columns key_of_channel same_channel

abbrev pub write_distances : ℕ → Map ℕ → List (Row ℤ) → Option (List (Row ℤ))
write_distances = write_map distance_columns label_of_distance same_start

-- The statements behind the row of `stats_hourly`.
unfoldable pub insert_maps : Bucket → Tables → Option Tables
insert_maps b t = elim (write_channels b.hour_unix b.channels t.channels) [
  | none ↦ none
  | some channels ↦ elim (write_distances b.hour_unix b.distance_km t.distances) [
    | none ↦ none
    | some distances ↦
        some (record { hourly = counters b ∷ t.hourly; channels = channels; distances = distances })
  ]
]

-- `insertSQLiteBucket`; `none` is an error.
unfoldable pub insert_sqlite_bucket : Bucket → Tables → Option Tables
insert_sqlite_bucket b t = elim (hour_of b.hour_unix t.hourly) [
  | some old ↦ none
  | none ↦ insert_maps b t
]

unfoldable pub write_buckets : NumberMap Bucket → Tables → Option Tables
write_buckets [] t = some t
write_buckets ((k, b) ∷ m) t = elim (insert_sqlite_bucket b t) [
  | none ↦ none
  | some t' ↦ write_buckets m t'
]

-- `writeSQLiteStats`
unfoldable pub write_sqlite_stats : NumberMap Bucket → Option Tables
write_sqlite_stats m = write_buckets m no_rows

-- `WHERE hour_unix >= ?` and the loop over the rows.
unfoldable pub load_hourly : ℕ → List Bucket → NumberMap Bucket
load_hourly cutoff [] = []
load_hourly cutoff (b ∷ bs) =
    let rest = load_hourly cutoff bs in
    if leb cutoff b.hour_unix then put b.hour_unix b rest else rest

-- A change of the bucket of a row, if there is one.
unfoldable pub in_bucket : ℕ → (Bucket → Bucket) → NumberMap Bucket → NumberMap Bucket
in_bucket hour f m = elim (at hour m) [ none ↦ m | some b ↦ put hour (f b) m ]

unfoldable pub load_channels : List (Row (Text × Text)) → NumberMap Bucket → NumberMap Bucket
load_channels [] m = m
load_channels (r ∷ rs) m =
    in_bucket r.hour
      (λ b. record b { channels = insert (key_of_channel r.columns) r.count b.channels })
      (load_channels rs m)

unfoldable pub load_distances : List (Row ℤ) → NumberMap Bucket → NumberMap Bucket
load_distances [] m = m
load_distances (r ∷ rs) m =
    in_bucket r.hour
      (λ b. record b { distance_km = insert (label_of_distance r.columns) r.count b.distance_km })
      (load_distances rs m)

-- `loadSQLite`
unfoldable pub load_sqlite : ℕ → Tables → NumberMap Bucket
load_sqlite cutoff t =
    load_distances t.distances (load_channels t.channels (load_hourly cutoff t.hourly))
