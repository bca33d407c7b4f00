-- ===== src/PacketIngest.antt =====
-- internal/packetingest/processor.go: `Processor`, as the calls that it makes, in their order.
pub mod Filing
use gomeshcom_client.Prelude.{
  ℕ, ℤ, Bool, true, false, not, ◌||◌, List, [], ◌∷◌, ◌++◌, Option, none, some, if◌then◌else◌,
  length,
}
use gomeshcom_client.Text.{Text, codes, text_eq}
use gomeshcom_client.Meshcom.Tags.{is_ack_or_reject}
use gomeshcom_client.Meshcom.Notice.{is_store_notice}
use gomeshcom_client.Chatlog.Ids.{base_call, origin, status_key}
use gomeshcom_client.Chatlog.Records.{TextMessage}
use gomeshcom_client.Positions.{Position}

-- `Source`
pub record Source : Type 0 where
  pub transport : Text
  pub endpoint : Text

-- `meshcom.Telemetry`, in the fields that the processor reads; `values` are those it hands on.
pub record Telemetry (V : Type 0) : Type 0 where
  pub source : Text
  pub rssi : Option ℤ
  pub snr : Option ℤ
  pub values : V

-- `F` stands for `float64`, `V` for the values of telemetry, `U` for packets of other types.
pub data Packet (F V U : Type 0) : Type 0 where
  position : Position F → Packet F V U
  text : TextMessage → Packet F V U
  telemetry : Telemetry V → Packet F V U
  other : U → Packet F V U

-- The type and the packet, or the error, that `meshcom.ParsePacket` returns.
pub data Parsed (F V U : Type 0) : Type 0 where
  parsed : Text → Packet F V U → Parsed F V U
  failed : Text → Parsed F V U

-- Which of the dependencies are not nil; `identity` has the callsign that `Current` returns.
pub record Dependencies : Type 0 where
  pub bus : Bool
  pub receive_log : Bool
  pub chat_log : Bool
  pub chat_status : Bool
  pub identity : Option Text
  pub positions : Bool
  pub telemetry : Bool

-- The calls of the interfaces. The time of a call is that of the packet.
pub data Call (F V U : Type 0) : Type 0 where
  log_received : Text → Text → Text → Text → Call F V U
  append_message : TextMessage → Call F V U
  record_incoming : Text → Text → Call F V U
  update_position : Position F → Call F V U
  touch_position : Text → Option ℤ → Option ℤ → Call F V U
  append_telemetry : Telemetry V → Call F V U
  publish_error : Text → Call F V U
  publish_received : Source → Packet F V U → Call F V U

unfoldable pub my_call : Dependencies → Text
my_call d = elim d.identity [ none ↦ [] | some call ↦ call ]

module _ {F V U : Type 0} where
  -- A call of a dependency that is not nil.
  unfoldable pub call_if : Bool → Call F V U → List (Call F V U)
  call_if present c = if present then c ∷ [] else []

  -- `recordIncomingStatus`
  unfoldable pub record_incoming_status : Dependencies → TextMessage → List (Call F V U)
  record_incoming_status d m =
      let key = status_key m.source m.destination (my_call d) in
      if not d.chat_status || is_ack_or_reject m.message
      then []
      else if text_eq (base_call (origin m.source)) (base_call (my_call d))
      then []
      else if text_eq key []
      then []
      else record_incoming key m.message ∷ []

  unfoldable pub log_chat_message : Dependencies → TextMessage → List (Call F V U)
  log_chat_message d m = if d.chat_log then append_message m ∷ record_incoming_status d m else []

  unfoldable pub store_packet : Dependencies → Packet F V U → List (Call F V U)
  store_packet d (position p) = call_if d.positions (update_position p)
  store_packet d (text m) =
      (if is_store_notice m.message then [] else log_chat_message d m)
      ++ call_if d.positions (touch_position m.source m.rssi m.snr)
  store_packet d (telemetry t) =
      call_if d.positions (touch_position t.source t.rssi t.snr)
      ++ call_if d.telemetry (append_telemetry t)
  store_packet d (other u) = []

  -- `Process`, on what parsing the data returned.
  unfoldable pub process_parsed : Dependencies → Source → Text → Parsed F V U → List (Call F V U)
  process_parsed d source raw (failed message) =
      call_if d.receive_log (log_received source.endpoint raw [] message)
      ++ call_if d.bus (publish_error message)
  process_parsed d source raw (parsed kind packet) =
      call_if d.receive_log (log_received source.endpoint raw kind [])
      ++ (store_packet d packet ++ call_if d.bus (publish_received source packet))

  -- `meshcom.ParsePacket` is an argument.
  unfoldable pub process : (Text → Parsed F V U) → Dependencies → Source → Text → List (Call F V U)
  process parse d source raw = process_parsed d source raw (parse raw)
