-- ===== src/Stats/Written.antt =====
-- internal/stats/store.go: what `writeSQLiteStats` leaves in the tables, hour by hour.
use gomeshcom_client.Prelude.{
  ℕ, ℤ, pos, negsuc, ◌≡◌, ◌∙◌, ◌⊎◌, refl, true, false, [], ◌∷◌, Option, none, some, inl, inr, arith,
  ◌==◌, ==_iff, subst, sym, ap, Bool-cases,
}
use gomeshcom_client.Text.{Text}
use gomeshcom_client.Text.Search.{text_eq_iff}
use gomeshcom_client.Map.{lookup, IsUnique}
use gomeshcom_client.Map.Numbered.{NumberMap, at}
use gomeshcom_client.Stats.{Bucket}
use gomeshcom_client.Stats.Table.{
  AreStored, count_behind, count_behind_own, count_behind_other, write_map-find,
}
use gomeshcom_client.Stats.Rows.{
  Tables, channel_columns, key_of_channel, same_channel, distance_columns, label_of_distance,
  same_start, counters, hour_of, insert_maps, insert_sqlite_bucket, write_buckets,
}
use gomeshcom_client.Stats.Loaded.{channel_at, distance_at}

-- A bucket whose labels come back from their columns, as those of the collector do.
pub record IsStorable (b : Bucket) : Type 0 where
  pub channels : AreStored channel_columns key_of_channel same_channel b.channels
  pub distances : AreStored distance_columns label_of_distance same_start b.distance_km
  pub channels_unique : IsUnique b.channels
  pub distances_unique : IsUnique b.distance_km

-- Every bucket stands at its hour, no hour stands twice, and every bucket is storable.
abbrev pub AreStorable : NumberMap Bucket → Type 0
AreStorable [] = Unit
AreStorable ((k, b) ∷ m) = (b.hour_unix ≡ k) × (at k m ≡ none) × IsStorable b × AreStorable m

-- No row of the tables is of the hour.
pub record IsFree (h : ℕ) (t : Tables) : Type 0 where
  pub hourly : hour_of h t.hourly ≡ none
  pub channels : (k : Text) → channel_at h k t.channels ≡ none
  pub distances : (k : Text) → distance_at h k t.distances ≡ none

-- The rows of an hour are those of a bucket.
pub record IsHeld (h : ℕ) (b : Bucket) (t : Tables) : Type 0 where
  pub hourly : hour_of h t.hourly ≡ some (counters b)
  pub channels : (k : Text) → channel_at h k t.channels ≡ lookup k b.channels
  pub distances : (k : Text) → distance_at h k t.distances ≡ lookup k b.distance_km

-- The rows of an hour are those of other tables.
pub record IsSameAt (h : ℕ) (t t' : Tables) : Type 0 where
  pub hourly : hour_of h t'.hourly ≡ hour_of h t.hourly
  pub channels : (k : Text) → channel_at h k t'.channels ≡ channel_at h k t.channels
  pub distances : (k : Text) → distance_at h k t'.distances ≡ distance_at h k t.distances

channel_key_same :
    (a b : Text × Text) → same_channel a b ≡ true → key_of_channel a ≡ key_of_channel b
unfolding same_channel
channel_key_same (kind, target) (kind', target') e =
    ap key_of_channel (ground (arith, text_eq_iff kind kind', text_eq_iff target target', e))

label_same : (a b : ℤ) → same_start a b ≡ true → label_of_distance a ≡ label_of_distance b
unfolding same_start
label_same (pos a) (pos b) e = ap label_of_distance (ground (arith, ==_iff a b))
label_same (pos a) (negsuc b) e = absurd (ground arith)
label_same (negsuc a) (pos b) e = absurd (ground arith)
label_same (negsuc a) (negsuc b) e = ap label_of_distance (ground (arith, ==_iff a b))

-- One bucket.
insert_sqlite_bucket-IsHeld :
    (b : Bucket) (t : Tables)
    → IsStorable b
    → IsFree b.hour_unix t
    → (t' : Tables) × (insert_sqlite_bucket b t ≡ some t')
      × IsHeld b.hour_unix b t'
      × ((h : ℕ) → (b.hour_unix == h) ≡ false → IsSameAt h t t')
unfolding insert_sqlite_bucket insert_maps count_behind hour_of counters
insert_sqlite_bucket-IsHeld b t s f =
    let (cs, wc, fc) =
      write_map-find channel_columns key_of_channel same_channel channel_key_same b.hour_unix
        b.channels t.channels s.channels s.channels_unique (λ k. inl (f.channels k)) in
    let (ds, wd, fd) =
      write_map-find distance_columns label_of_distance same_start label_same b.hour_unix
        b.distance_km t.distances s.distances s.distances_unique (λ k. inl (f.distances k)) in
    let own = (==_iff b.hour_unix b.hour_unix).1 refl in
    (
      record { hourly = counters b ∷ t.hourly; channels = cs; distances = ds },
      rw (insert_sqlite_bucket, f.hourly, insert_maps, wc, wd) refl,
      record {
        hourly = rw own refl;
        channels = λ k.
            fc b.hour_unix k
            ∙ count_behind_own channel_columns key_of_channel same_channel b.hour_unix b.channels
                t.channels k (f.channels k);
        distances = λ k.
            fd b.hour_unix k
            ∙ count_behind_own distance_columns label_of_distance same_start b.hour_unix
                b.distance_km t.distances k (f.distances k);
      },
      λ h n. record {
        hourly = rw n refl;
        channels = λ k.
            fc h k
            ∙ count_behind_other channel_columns key_of_channel same_channel b.hour_unix b.channels
                t.channels h k n;
        distances = λ k.
            fd h k
            ∙ count_behind_other distance_columns label_of_distance same_start b.hour_unix
                b.distance_km t.distances h k n;
      },
    )

-- What the tables hold of an hour behind a written map of buckets.
abbrev pub IsHeldOr : ℕ → Option Bucket → Tables → Tables → Type 0
IsHeldOr h none t t' = IsSameAt h t t'
IsHeldOr h (some b) t t' = IsHeld h b t'

IsHeld-IsSameAt :
    (h : ℕ) (b : Bucket) (t t' : Tables) → IsHeld h b t → IsSameAt h t t' → IsHeld h b t'
IsHeld-IsSameAt h b t t' k s = record {
  hourly = s.hourly ∙ k.hourly;
  channels = λ c. s.channels c ∙ k.channels c;
  distances = λ c. s.distances c ∙ k.distances c;
}

IsSameAt-trans :
    (h : ℕ) (t t' t'' : Tables) → IsSameAt h t t' → IsSameAt h t' t'' → IsSameAt h t t''
IsSameAt-trans h t t' t'' a b = record {
  hourly = b.hourly ∙ a.hourly;
  channels = λ c. b.channels c ∙ a.channels c;
  distances = λ c. b.distances c ∙ a.distances c;
}

IsFree-IsSameAt : (h : ℕ) (t t' : Tables) → IsFree h t → IsSameAt h t t' → IsFree h t'
IsFree-IsSameAt h t t' f s = record {
  hourly = s.hourly ∙ f.hourly;
  channels = λ c. s.channels c ∙ f.channels c;
  distances = λ c. s.distances c ∙ f.distances c;
}

IsHeldOr-IsSameAt :
    (h : ℕ) (o : Option Bucket) (t t' t'' : Tables)
    → IsSameAt h t t'
    → IsHeldOr h o t' t''
    → IsHeldOr h o t t''
IsHeldOr-IsSameAt h none t t' t'' s k = IsSameAt-trans h t t' t'' s k
IsHeldOr-IsSameAt h (some b) t t' t'' s k = k

write_buckets-cons :
    (k : ℕ) (b : Bucket) (m : NumberMap Bucket) (t t' : Tables)
    → insert_sqlite_bucket b t ≡ some t'
    → write_buckets ((k, b) ∷ m) t ≡ write_buckets m t'
unfolding write_buckets
write_buckets-cons k b m t t' w = ground (arith, w)

pub write_buckets-IsHeldOr :
    (m : NumberMap Bucket) (t : Tables)
    → AreStorable m
    → ((h : ℕ) → (at h m ≡ none) ⊎ IsFree h t)
    → (t' : Tables) × (write_buckets m t ≡ some t') × ((h : ℕ) → IsHeldOr h (at h m) t t')
unfolding write_buckets at
write_buckets-IsHeldOr [] t s f =
    (t, refl, λ h. record { hourly = refl; channels = λ k. refl; distances = λ k. refl })
write_buckets-IsHeldOr ((k, b) ∷ m) t (e, n, s, ss) f =
    let free : IsFree b.hour_unix t = elim (f k) [
      | inl z ↦ absurd (ground (arith, z, ==_iff k k))
      | inr g ↦ subst (λ i. IsFree i t) (sym e) g
    ] in
    let (t1, w1, held, other) = insert_sqlite_bucket-IsHeld b t s free in
    let held_k : IsHeld k b t1 = subst (λ i. IsHeld i b t1) e held in
    let others : (h : ℕ) → (k == h) ≡ false → IsSameAt h t t1 =
      λ h q. other h (ap (λ i. i == h) e ∙ q) in
    let f1 : (h : ℕ) → (at h m ≡ none) ⊎ IsFree h t1 = λ h. elim (Bool-cases (k == h)) [
      | inl q ↦ inl (subst (λ i. at i m ≡ none) ((==_iff k h).0 q) n)
      | inr q ↦ elim (f h) [
        | inl z ↦ inl (ground (arith, z, q))
        | inr g ↦ inr (IsFree-IsSameAt h t t1 g (others h q))
      ]
    ] in
    let (t2, w2, all) = write_buckets-IsHeldOr m t1 ss f1 in
    let same_k : IsSameAt k t1 t2 = subst (λ o. IsHeldOr k o t1 t2) n (all k) in
    (
      t2,
      write_buckets-cons k b m t t1 w1 ∙ w2,
      λ h. elim (Bool-cases (k == h)) [
        | inl q ↦ rw q (
            subst (λ i. IsHeld i b t2) ((==_iff k h).0 q) (IsHeld-IsSameAt k b t1 t2 held_k same_k))
        | inr q ↦ rw q (IsHeldOr-IsSameAt h (at h m) t t1 t2 (others h q) (all h))
      ],
    )
