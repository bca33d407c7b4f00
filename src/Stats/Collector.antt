-- ===== src/Stats/Collector.antt =====
-- internal/stats/collector.go: the events that are counted.
use gomeshcom_client.Prelude.{ℕ, Bool, ◌&&◌, [], Option, none, some, if◌then◌else◌}
use gomeshcom_client.Text.{Text, text_eq}
use gomeshcom_client.Chatlog.Ids.{is_dm, origin}
use gomeshcom_client.Chatlog.Records.{Record, TextMessage}
use gomeshcom_client.Positions.{Position}
use gomeshcom_client.Positions
use gomeshcom_client.PacketIngest.{Packet, position, text, telemetry, other}
use gomeshcom_client.Stats.{
  Store, kind_dm, kind_public, kind_telemetry, kind_position, kind_error, record_packet,
  record_dm_ack, record_channel,
}
use gomeshcom_client.Stats.Keys.{public_key, dm_key}

-- An event of the bus by its type, with its data where these have the type that the collector asks
-- for.
pub data Event (F V U : Type 0) : Type 0 where
  packet_received : Text → Packet F V U → Event F V U
  packet_error : Event F V U
  message_delivered : Record → Event F V U
  other_event : Event F V U

-- `nonzero` tells if a `float64` is not 0, `haversine_km` is `HaversineKm` cut to whole kilometres,
-- and `parse_time` is `time.Parse`.
pub record Environment (F : Type 0) : Type 0 where
  pub nonzero : F → Bool
  pub haversine_km : F → F → F → F → ℕ
  pub parse_time : Text → Option ℕ
  pub my_call : Text
  pub get : Text → Option (Positions.Record F)

module _ {F : Type 0} (env : Environment F) where
  unfoldable pub parse_received_at : ℕ → Text → ℕ
  parse_received_at now s =
      if text_eq s [] then now else elim (env.parse_time s) [ none ↦ now | some t ↦ t ]

  -- The distance from the record of the own station.
  unfoldable pub distance_from : Position F → Positions.Record F → Option ℕ
  distance_from p own =
      if env.nonzero own.latitude && env.nonzero own.longitude
      then some (env.haversine_km own.latitude own.longitude p.latitude p.longitude)
      else none

  unfoldable pub distance_to : Position F → Option ℕ
  distance_to p =
      if text_eq env.my_call []
      then none
      else elim (env.get env.my_call) [ none ↦ none | some own ↦ distance_from p own ]

unfoldable pub count_text : TextMessage → ℕ → Store → Store
count_text m received_at s =
    if is_dm m.destination
    then record_channel (dm_key (origin m.source)) received_at
        (record_packet kind_dm received_at none s)
    else record_channel (public_key m.destination) received_at
        (record_packet kind_public received_at none s)

unfoldable pub handle_delivered : ℕ → Record → Store → Store
handle_delivered now r s =
    if is_dm r.dst then record_channel (dm_key r.dst) now (record_dm_ack now s) else s

module _ {F V U : Type 0} (env : Environment F) where
  -- The switch of `handlePacket`.
  unfoldable pub count_typed : Packet F V U → ℕ → Store → Store
  count_typed (text m) received_at s = count_text m received_at s
  count_typed (position p) received_at s =
      record_packet kind_position received_at (distance_to env p) s
  count_typed (telemetry t) received_at s = record_packet kind_telemetry received_at none s
  count_typed (other u) received_at s = s

  unfoldable pub handle_packet : ℕ → Text → Packet F V U → Store → Store
  handle_packet now received_at p = count_typed p (parse_received_at env now received_at)

  -- `handle`, at a time.
  unfoldable pub handle : ℕ → Event F V U → Store → Store
  handle now (packet_received received_at p) s = handle_packet now received_at p s
  handle now packet_error s = record_packet kind_error now none s
  handle now (message_delivered r) s = handle_delivered now r s
  handle now other_event s = s
