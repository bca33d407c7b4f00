-- ===== src/Stats/Counted.antt =====
-- internal/stats: how the counters of an hour agree.
use gomeshcom_client.Prelude.{
  ℕ, suc, ◌+◌, ◌≤◌, ◌⊎◌, subst, ◌≡◌, refl, [], ◌∷◌, Option, none, some, arith, if◌then◌else◌, ◌==◌,
  Bool-cases, inl, inr,
}
use gomeshcom_client.Text.{Text, text_eq}
use gomeshcom_client.Map.{Map, lookup, insert}
use gomeshcom_client.Map.Numbered.{at, at-put}
use gomeshcom_client.Chatlog.Ids.{is_dm, origin}
use gomeshcom_client.Chatlog.Records.{Record, TextMessage}
use gomeshcom_client.PacketIngest.{Packet, position, text, telemetry, other}
use gomeshcom_client.Stats.{
  Bucket, Store, Kind, kind_dm, kind_public, kind_telemetry, kind_position, kind_error, hour_key,
  get_or_create, count_at, bump, with_distance, count_packet, change, record_packet, count_ack,
  record_dm_ack, count_channel, record_channel,
}
use gomeshcom_client.Stats.Keys.{dm_key, public_key, distance_bucket_label}
use gomeshcom_client.Stats.Collector.{
  Event, packet_received, packet_error, message_delivered, other_event, Environment, distance_to,
  parse_received_at, count_text, count_typed, handle_packet, handle_delivered, handle,
}

abbrev pub sum : Map ℕ → ℕ
sum [] = 0
sum ((k, n) ∷ m) = n + sum m

sum-insert : (k : Text) (v : ℕ) (m : Map ℕ) → sum (insert k v m) + count_at k m ≡ sum m + v
unfolding insert count_at lookup
sum-insert k v [] = ground arith
sum-insert k v ((j, w) ∷ m) = ground (arith, sum-insert k v m)

sum-bump : (k : Text) (m : Map ℕ) → sum (bump k m) ≡ suc (sum m)
unfolding bump
sum-bump k m = ground (arith, sum-insert k (suc (count_at k m)) m)

sum-with_distance :
    (km : Option ℕ) (m : Map ℕ)
    → (sum (with_distance km m) ≡ sum m) ⊎ (sum (with_distance km m) ≡ suc (sum m))
unfolding with_distance
sum-with_distance none m = inl refl
sum-with_distance (some km) m = inr (sum-bump (distance_bucket_label km) m)

get_or_create-change :
    (f : Bucket → Bucket) (hour h : ℕ) (s : Store)
    → get_or_create h (change f hour s).buckets
      ≡ (if hour == h then f (get_or_create h s.buckets) else get_or_create h s.buckets)
unfolding change get_or_create
get_or_create-change f hour h s =
    ground (arith, at-put hour h (f (get_or_create hour s.buckets)) s.buckets)

-- The counters of an hour: the total is that of the packets by kind, and neither the histogram nor
-- the channels count more than what they break down.
abbrev pub IsCounted : Bucket → Type 0
IsCounted b =
    (b.total ≡ b.dm + (b.public + (b.telemetry + b.position)))
    × (sum b.distance_km ≤ b.position)
    × (sum b.channels ≤ b.dm + (b.public + b.dm_ack))

-- Those of every hour.
abbrev pub AreCounted : Store → Type 0
AreCounted s = (h : ℕ) → IsCounted (get_or_create h s.buckets)

change-AreCounted :
    (f : Bucket → Bucket) (hour : ℕ) (s : Store)
    → ((b : Bucket) → IsCounted b → IsCounted (f b))
    → AreCounted s
    → AreCounted (change f hour s)
change-AreCounted f hour s p a h =
    let step = get_or_create-change f hour h s in
    elim (Bool-cases (hour == h)) [
      | inl e ↦
          let same : f (get_or_create h s.buckets) ≡ get_or_create h (change f hour s).buckets =
            ground (arith, step) in
          subst IsCounted same (p (get_or_create h s.buckets) (a h))
      | inr n ↦
          let same : get_or_create h s.buckets ≡ get_or_create h (change f hour s).buckets =
            ground (arith, step) in
          subst IsCounted same (a h)
    ]

-- Two changes of one bucket.
changes-AreCounted :
    (f g : Bucket → Bucket) (hour : ℕ) (s : Store)
    → ((b : Bucket) → IsCounted b → IsCounted (g (f b)))
    → AreCounted s
    → AreCounted (change g hour (change f hour s))
changes-AreCounted f g hour s p a h =
    let first = get_or_create-change f hour h s in
    let second = get_or_create-change g hour h (change f hour s) in
    elim (Bool-cases (hour == h)) [
      | inl e ↦
          let same : g (f (get_or_create h s.buckets))
              ≡ get_or_create h (change g hour (change f hour s)).buckets =
            ground (arith, first, second) in
          subst IsCounted same (p (get_or_create h s.buckets) (a h))
      | inr n ↦
          let same : get_or_create h s.buckets
              ≡ get_or_create h (change g hour (change f hour s)).buckets =
            ground (arith, first, second) in
          subst IsCounted same (a h)
    ]

count_packet-IsCounted :
    (kind : Kind) (km : Option ℕ) (b : Bucket) → IsCounted b → IsCounted (count_packet kind km b)
unfolding count_packet
count_packet-IsCounted kind_dm km b c = omega (arith, c)
count_packet-IsCounted kind_public km b c = omega (arith, c)
count_packet-IsCounted kind_telemetry km b c = omega (arith, c)
count_packet-IsCounted kind_position km b c = ground (arith, c, sum-with_distance km b.distance_km)
count_packet-IsCounted kind_error km b c = c

record_packet-AreCounted :
    (kind : Kind) (t : ℕ) (km : Option ℕ) (s : Store)
    → AreCounted s
    → AreCounted (record_packet kind t km s)
unfolding record_packet
record_packet-AreCounted kind t km s =
    change-AreCounted (count_packet kind km) (hour_key t) s (count_packet-IsCounted kind km)

-- A change that allows one more count of a channel, and that count, which an empty key leaves out.
record_channel-AreCounted :
    (f : Bucket → Bucket) (key : Text) (t : ℕ) (s : Store)
    → ((b : Bucket) → IsCounted b → IsCounted (f b))
    → ((b : Bucket) → IsCounted b → IsCounted (count_channel key (f b)))
    → AreCounted s
    → AreCounted (record_channel key t (change f (hour_key t) s))
unfolding record_channel
record_channel-AreCounted f key t s p q a = elim (Bool-cases (text_eq key [])) [
  | inl e ↦ rw e (change-AreCounted f (hour_key t) s p a)
  | inr n ↦ rw n (changes-AreCounted f (count_channel key) (hour_key t) s q a)
]

count_text-AreCounted :
    (m : TextMessage) (t : ℕ) (s : Store) → AreCounted s → AreCounted (count_text m t s)
unfolding count_text record_packet count_packet count_channel
count_text-AreCounted m t s a = elim (Bool-cases (is_dm m.destination)) [
  | inl e ↦ rw e (
      record_channel-AreCounted (count_packet kind_dm none) (dm_key (origin m.source)) t s
        (count_packet-IsCounted kind_dm none)
        (λ b c. omega (arith, c, sum-bump (dm_key (origin m.source)) b.channels)) a)
  | inr n ↦ rw n (
      record_channel-AreCounted (count_packet kind_public none) (public_key m.destination) t s
        (count_packet-IsCounted kind_public none)
        (λ b c. omega (arith, c, sum-bump (public_key m.destination) b.channels)) a)
]

handle_delivered-AreCounted :
    (now : ℕ) (r : Record) (s : Store) → AreCounted s → AreCounted (handle_delivered now r s)
unfolding handle_delivered record_dm_ack count_ack count_channel
handle_delivered-AreCounted now r s a = elim (Bool-cases (is_dm r.dst)) [
  | inr n ↦ rw n a
  | inl e ↦ rw e (
      record_channel-AreCounted count_ack (dm_key r.dst) now s (λ b c. omega (arith, c))
        (λ b c. omega (arith, c, sum-bump (dm_key r.dst) b.channels)) a)
]

module _ {F V U : Type 0} (env : Environment F) where
  count_typed-AreCounted :
      (p : Packet F V U) (t : ℕ) (s : Store) → AreCounted s → AreCounted (count_typed env p t s)
  unfolding count_typed
  count_typed-AreCounted (text m) t s a = count_text-AreCounted m t s a
  count_typed-AreCounted (position p) t s a =
      record_packet-AreCounted kind_position t (distance_to env p) s a
  count_typed-AreCounted (telemetry x) t s a = record_packet-AreCounted kind_telemetry t none s a
  count_typed-AreCounted (other u) t s a = a

  -- Whatever event is handled, at whatever time, the counters of every hour agree behind it if they
  -- did before: the total is that of the packets by kind, the histogram of distances counts no more
  -- than the positions, and the channels no more than the messages and their acknowledgements.
  pub handle-AreCounted :
      (now : ℕ) (e : Event F V U) (s : Store) → AreCounted s → AreCounted (handle env now e s)
  unfolding handle handle_packet
  handle-AreCounted now (packet_received at p) s a =
      count_typed-AreCounted p (parse_received_at env now at) s a
  handle-AreCounted now packet_error s a = record_packet-AreCounted kind_error now none s a
  handle-AreCounted now (message_delivered r) s a = handle_delivered-AreCounted now r s a
  handle-AreCounted now other_event s a = a
