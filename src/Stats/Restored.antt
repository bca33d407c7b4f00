-- ===== src/Stats/Restored.antt =====
-- internal/stats/store.go: what is read from the tables is what was written to them.
use gomeshcom_client.Prelude.{ℕ, ◌≡◌, ◌∙◌, ◌⊎◌, refl, true, Option, none, some, inr, leb}
use gomeshcom_client.Text.{Text}
use gomeshcom_client.Map.{lookup}
use gomeshcom_client.Map.Numbered.{NumberMap, at}
use gomeshcom_client.Stats.{Bucket}
use gomeshcom_client.Stats.Table.{find, lookup-read_map}
use gomeshcom_client.Stats.Rows.{
  Tables, no_rows, channel_columns, key_of_channel, same_channel, distance_columns,
  label_of_distance, same_start, counters, hour_of, write_sqlite_stats, load_sqlite,
}
use gomeshcom_client.Stats.Loaded.{at-load_sqlite}
use gomeshcom_client.Stats.Written.{AreStorable, IsFree, IsHeldOr, write_buckets-IsHeldOr}

-- Two buckets with the same counters, whose maps hold the same counts.
pub record IsSameBucket (a b : Bucket) : Type 0 where
  pub counted : counters a ≡ counters b
  pub channels : (k : Text) → lookup k a.channels ≡ lookup k b.channels
  pub distances : (k : Text) → lookup k a.distance_km ≡ lookup k b.distance_km

abbrev pub IsSameOption : Option Bucket → Option Bucket → Type 0
IsSameOption (some a) (some b) = IsSameBucket a b
IsSameOption none none = Unit
IsSameOption _ _ = ⊥

load_sqlite-IsHeldOr :
    (h : ℕ) (o : Option Bucket) (cutoff : ℕ) (t : Tables)
    → leb cutoff h ≡ true
    → IsHeldOr h o no_rows t
    → IsSameOption (at h (load_sqlite cutoff t)) o
unfolding counters hour_of
load_sqlite-IsHeldOr h none cutoff t c k = rw (at-load_sqlite cutoff h t, c, k.hourly) tt
load_sqlite-IsHeldOr h (some b) cutoff t c k =
    rw (at-load_sqlite cutoff h t, c, k.hourly)
      (record {
        counted = refl;
        channels = λ key.
            lookup-read_map channel_columns key_of_channel same_channel h key t.channels
            ∙ k.channels key;
        distances = λ key.
            lookup-read_map distance_columns label_of_distance same_start h key t.distances
            ∙ k.distances key;
      })

-- If every bucket stands at its hour and has only keys and labels that come back from their columns,
-- as those of the collector do: the tables are written without an error, and a load from them has, at
-- every hour from the cutoff on, the same counters and the same counts in both maps, or no bucket where
-- there was none.
pub load_sqlite-write_sqlite_stats :
    (m : NumberMap Bucket) (cutoff : ℕ)
    → AreStorable m
    → (t : Tables) × (write_sqlite_stats m ≡ some t)
      × ((h : ℕ) → leb cutoff h ≡ true → IsSameOption (at h (load_sqlite cutoff t)) (at h m))
unfolding write_sqlite_stats hour_of find
load_sqlite-write_sqlite_stats m cutoff s =
    let free : (h : ℕ) → (at h m ≡ none) ⊎ IsFree h no_rows =
      λ h. inr (record { hourly = refl; channels = λ k. refl; distances = λ k. refl }) in
    let (t, w, all) = write_buckets-IsHeldOr m no_rows s free in
    (t, w, λ h c. load_sqlite-IsHeldOr h (at h m) cutoff t c (all h))
