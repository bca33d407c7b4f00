-- ===== src/Stats/Loaded.antt =====
-- internal/stats/store.go: what `loadSQLite` makes of the tables, hour by hour.
use gomeshcom_client.Prelude.{
  ℕ, ℤ, ◌≡◌, ◌∙◌, refl, List, [], ◌∷◌, Option, none, some, inl, inr, arith, if◌then◌else◌, leb,
  ◌==◌, ==_iff, subst, Bool-cases, Option-cases,
}
use gomeshcom_client.Text.{Text}
use gomeshcom_client.Map.{Map}
use gomeshcom_client.Map.Numbered.{NumberMap, at, at-put}
use gomeshcom_client.Stats.{Bucket}
use gomeshcom_client.Stats.Table.{Row, find, read_map}
use gomeshcom_client.Stats.Rows.{
  Tables, channel_columns, key_of_channel, same_channel, distance_columns, label_of_distance,
  same_start, hour_of, load_hourly, in_bucket, load_channels, load_distances, load_sqlite,
}

abbrev pub channel_at : ℕ → Text → List (Row (Text × Text)) → Option ℕ
channel_at = find channel_columns key_of_channel same_channel

abbrev pub distance_at : ℕ → Text → List (Row ℤ) → Option ℕ
distance_at = find distance_columns label_of_distance same_start

abbrev pub read_channels : ℕ → List (Row (Text × Text)) → Map ℕ → Map ℕ
read_channels = read_map channel_columns key_of_channel same_channel

abbrev pub read_distances : ℕ → List (Row ℤ) → Map ℕ → Map ℕ
read_distances = read_map distance_columns label_of_distance same_start

at-load_hourly :
    (cutoff h : ℕ) (bs : List Bucket)
    → at h (load_hourly cutoff bs) ≡ (if leb cutoff h then hour_of h bs else none)
unfolding load_hourly hour_of at
at-load_hourly cutoff h [] = ground arith
at-load_hourly cutoff h (b ∷ bs) =
    ground (arith, at-load_hourly cutoff h bs, at-put b.hour_unix h b (load_hourly cutoff bs))

at-in_bucket :
    (h hour : ℕ) (f : Bucket → Bucket) (m : NumberMap Bucket)
    → at h (in_bucket hour f m)
      ≡ elim (at h m) [ none ↦ none | some b ↦ some (if hour == h then f b else b) ]
unfolding in_bucket
at-in_bucket h hour f m = elim (Bool-cases (hour == h)) [
  | inl q ↦ at_hour ((==_iff hour h).0 q)
  | inr q ↦ elim (Option-cases (at hour m)) [
    | inl n ↦
        rw (in_bucket, n)
          (elim (Option-cases (at h m)) [ inl o ↦ rw o refl | inr (c, o) ↦ rw (o, q) refl ])
    | inr (b, e) ↦
        rw (in_bucket, e, at-put hour h (f b) m, q)
          (elim (Option-cases (at h m)) [ inl o ↦ rw o refl | inr (c, o) ↦ rw (o, q) refl ])
  ]
]
  where
    at_hour :
        hour ≡ h
        → at h (in_bucket hour f m)
          ≡ elim (at h m) [ none ↦ none | some b ↦ some (if hour == h then f b else b) ]
    at_hour p =
        subst
          (λ h.
            at h (in_bucket hour f m)
            ≡ elim (at h m) [ none ↦ none | some b ↦ some (if hour == h then f b else b) ])
          p
          (elim (Option-cases (at hour m)) [
            | inl n ↦ rw (in_bucket, n) (rw n refl)
            | inr (b, e) ↦
                rw (in_bucket, e, at-put hour hour (f b) m, (==_iff hour hour).1 refl) refl
          ])

at-load_channels :
    (h : ℕ) (rs : List (Row (Text × Text))) (m : NumberMap Bucket)
    → at h (load_channels rs m) ≡ elim (at h m) [
      | none ↦ none
      | some b ↦ some (record b { channels = read_channels h rs b.channels })
    ]
unfolding load_channels read_map
at-load_channels h [] m = elim (Option-cases (at h m)) [
  | inl n ↦ rw n refl
  | inr (b, e) ↦ rw e refl
]
at-load_channels h (r ∷ rs) m = elim (Option-cases (at h m)) [
  | inl n ↦ rw (at-in_bucket h r.hour _ (load_channels rs m), at-load_channels h rs m, n) refl
  | inr (b, e) ↦ elim (Bool-cases (r.hour == h)) [
    | inl q ↦ rw (at-in_bucket h r.hour _ (load_channels rs m), at-load_channels h rs m, e, q) refl
    | inr q ↦ rw (at-in_bucket h r.hour _ (load_channels rs m), at-load_channels h rs m, e, q) refl
  ]
]

at-load_distances :
    (h : ℕ) (rs : List (Row ℤ)) (m : NumberMap Bucket)
    → at h (load_distances rs m) ≡ elim (at h m) [
      | none ↦ none
      | some b ↦ some (record b { distance_km = read_distances h rs b.distance_km })
    ]
unfolding load_distances read_map
at-load_distances h [] m = elim (Option-cases (at h m)) [
  | inl n ↦ rw n refl
  | inr (b, e) ↦ rw e refl
]
at-load_distances h (r ∷ rs) m = elim (Option-cases (at h m)) [
  | inl n ↦ rw (at-in_bucket h r.hour _ (load_distances rs m), at-load_distances h rs m, n) refl
  | inr (b, e) ↦ elim (Bool-cases (r.hour == h)) [
    | inl q ↦
        rw (at-in_bucket h r.hour _ (load_distances rs m), at-load_distances h rs m, e, q) refl
    | inr q ↦
        rw (at-in_bucket h r.hour _ (load_distances rs m), at-load_distances h rs m, e, q) refl
  ]
]

-- What a load makes of the tables, hour by hour.
pub at-load_sqlite :
    (cutoff h : ℕ) (t : Tables)
    → at h (load_sqlite cutoff t) ≡ elim (if leb cutoff h then hour_of h t.hourly else none) [
      | none ↦ none
      | some b ↦ some (record b {
        channels = read_channels h t.channels b.channels;
        distance_km = read_distances h t.distances b.distance_km;
      })
    ]
unfolding load_sqlite
at-load_sqlite cutoff h t =
    let bs = load_hourly cutoff t.hourly in
    at-load_distances h t.distances (load_channels t.channels bs) ∙ elim (Option-cases (at h bs)) [
      | inl n ↦ rw (at-load_channels h t.channels bs, ← at-load_hourly cutoff h t.hourly, n) refl
      | inr (b, e) ↦
          rw (at-load_channels h t.channels bs, ← at-load_hourly cutoff h t.hourly, e) refl
    ]
