-- ===== src/Stats.antt =====
-- internal/stats/store.go: hourly counters of packets. Times are seconds since 1970.
pub mod Keys
pub mod Ranges
pub mod Collector
pub mod Counted
pub mod Table
pub mod Rows
pub mod Loaded
pub mod Written
pub mod Restored
use gomeshcom_client.Prelude.{
  ℕ, suc, ◌+◌, ◌-◌, ◌*◌, ◌%◌, Bool, true, false, ◌&&◌, List, [], ◌∷◌, Option, none, some,
  if◌then◌else◌, ltb, leb, ◌==◌,
}
use gomeshcom_client.Text.{Text, text_eq}
use gomeshcom_client.Map.{Map, lookup, insert}
use gomeshcom_client.Map.Numbered.{NumberMap, at, put}
use gomeshcom_client.Stats.Keys.{distance_bucket_label}

-- A map that is nil is empty.
pub record Bucket : Type 0 where
  pub hour_unix : ℕ
  pub dm : ℕ
  pub dm_ack : ℕ
  pub public : ℕ
  pub telemetry : ℕ
  pub position : ℕ
  pub errors : ℕ
  pub total : ℕ
  pub distance_km : Map ℕ
  pub channels : Map ℕ

pub data Kind : Type 0 where
  kind_dm kind_public kind_telemetry kind_position kind_error : Kind

-- `in_flight` and `stored` stand for `snap` and for the tables, as in the other stores.
pub record Store : Type 0 where
  pub retention_days : ℕ
  pub buckets : NumberMap Bucket
  pub dirty : Bool
  pub in_flight : Option (NumberMap Bucket)
  pub stored : NumberMap Bucket

unfoldable pub hour_key : ℕ → ℕ
hour_key t = t - t % 3600

unfoldable pub new_bucket : ℕ → Bucket
new_bucket hour = record {
  hour_unix = hour;
  dm = 0;
  dm_ack = 0;
  public = 0;
  telemetry = 0;
  position = 0;
  errors = 0;
  total = 0;
  distance_km = [];
  channels = [];
}

-- `getOrCreate`, read: a missing bucket is a new one.
unfoldable pub get_or_create : ℕ → NumberMap Bucket → Bucket
get_or_create hour m = elim (at hour m) [ none ↦ new_bucket hour | some b ↦ b ]

-- `m[key]` of a map of counters, and `m[key]++`.
unfoldable pub count_at : Text → Map ℕ → ℕ
count_at key m = elim (lookup key m) [ none ↦ 0 | some n ↦ n ]

unfoldable pub bump : Text → Map ℕ → Map ℕ
bump key m = insert key (suc (count_at key m)) m

abbrev in_total : Bucket → Bucket
in_total b = record b { total = b.total + 1 }

unfoldable pub with_distance : Option ℕ → Map ℕ → Map ℕ
with_distance none m = m
with_distance (some km) m = bump (distance_bucket_label km) m

-- The switch of `RecordPacket`. Distances are whole kilometres.
unfoldable pub count_packet : Kind → Option ℕ → Bucket → Bucket
count_packet kind_dm km b = in_total (record b { dm = b.dm + 1 })
count_packet kind_public km b = in_total (record b { public = b.public + 1 })
count_packet kind_telemetry km b = in_total (record b { telemetry = b.telemetry + 1 })
count_packet kind_position km b =
    in_total (record b { position = b.position + 1; distance_km = with_distance km b.distance_km })
count_packet kind_error km b = record b { errors = b.errors + 1 }

-- A change of the bucket of an hour.
unfoldable pub change : (Bucket → Bucket) → ℕ → Store → Store
change f hour s = record s {
  buckets = put hour (f (get_or_create hour s.buckets)) s.buckets;
  dirty = true;
}

unfoldable pub record_packet : Kind → ℕ → Option ℕ → Store → Store
record_packet kind received_at km = change (count_packet kind km) (hour_key received_at)

unfoldable pub count_ack : Bucket → Bucket
count_ack b = record b { dm_ack = b.dm_ack + 1 }

unfoldable pub record_dm_ack : ℕ → Store → Store
record_dm_ack received_at = change count_ack (hour_key received_at)

unfoldable pub count_channel : Text → Bucket → Bucket
count_channel key b = record b { channels = bump key b.channels }

unfoldable pub record_channel : Text → ℕ → Store → Store
record_channel key received_at s =
    if text_eq key [] then s else change (count_channel key) (hour_key received_at) s

-- `for k, b := range s.buckets { if k >= fromKey && k <= toKey {...} }`
unfoldable pub in_range : ℕ → ℕ → NumberMap Bucket → List Bucket
in_range from to [] = []
in_range from to ((k, b) ∷ m) =
    let rest = in_range from to m in if leb from k && leb k to then b ∷ rest else rest

-- `sort.Slice` by the hour, as insertion.
unfoldable pub insert_by_hour : Bucket → List Bucket → List Bucket
insert_by_hour b [] = b ∷ []
insert_by_hour b (c ∷ cs) =
    let rest = insert_by_hour b cs in if ltb c.hour_unix b.hour_unix then c ∷ rest else b ∷ c ∷ cs

unfoldable pub sort_by_hour : List Bucket → List Bucket
sort_by_hour [] = []
sort_by_hour (b ∷ bs) = insert_by_hour b (sort_by_hour bs)

unfoldable pub read_range : ℕ → ℕ → Store → List Bucket
read_range from to s = sort_by_hour (in_range (hour_key from) (hour_key to) s.buckets)

unfoldable pub cutoff_unix : ℕ → Store → ℕ
cutoff_unix now s = if s.retention_days == 0 then 0 else now - s.retention_days * 86400

-- The loop of `pruneExpired`.
unfoldable pub keep_from : ℕ → NumberMap Bucket → NumberMap Bucket
keep_from cutoff [] = []
keep_from cutoff ((k, b) ∷ m) =
    let rest = keep_from cutoff m in if ltb k cutoff then rest else (k, b) ∷ rest

unfoldable pub any_below : ℕ → NumberMap Bucket → Bool
any_below cutoff [] = false
any_below cutoff ((k, b) ∷ m) = let rest = any_below cutoff m in if ltb k cutoff then true else rest

unfoldable pub prune_expired : ℕ → Store → Store
prune_expired now s =
    let cutoff = cutoff_unix now s in
    record s {
      buckets = keep_from cutoff s.buckets;
      dirty = if any_below cutoff s.buckets then true else s.dirty;
    }

-- The first part of `save`, under the lock.
unfoldable pub begin_save : Store → Store
begin_save s = if s.dirty then record s { in_flight = some s.buckets; dirty = false } else s

-- The transaction of `saveSQLite`. Nothing follows it: a failed one leaves the store unmarked.
unfoldable pub finish_save : Bool → Store → Store
finish_save written s = elim (s.in_flight) [
  | none ↦ s
  | some snap ↦
      if written
      then record s { stored = snap; in_flight = none }
      else record s { in_flight = none }
]
