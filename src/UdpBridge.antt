-- ===== src/UdpBridge.antt =====
-- internal/udpbridge/bridge.go: where the node is, and what is sent to it.
pub mod Learned
use gomeshcom_client.Prelude.{
  ℕ, Bool, true, false, not, ◌||◌, List, [], ◌∷◌, Option, none, some, is_empty, if◌then◌else◌,
}
use gomeshcom_client.Text.{Text, codes}
use gomeshcom_client.Meshcom.Outgoing.{
  TextError, OutgoingText, Outgoing, ok, err, new_outgoing_text,
}
use gomeshcom_client.PacketIngest.{Source, Parsed, parsed, failed, Dependencies, Call, process}

-- An empty address is one that is not configured; `learned` is nil before the first packet.
pub record Bridge : Type 0 where
  pub node_addr : Text
  pub learned : Option Text
  pub disable_tx : Bool
  pub dependencies : Dependencies

abbrev pub has_failed : {F V U : Type 0} → Parsed F V U → Bool
has_failed (parsed kind packet) = false
has_failed (failed message) = true

-- `handleDatagram`, with the calls of the processor; `Process` returns the error of the parser.
unfoldable pub handle_datagram :
    {F V U : Type 0} → (Text → Parsed F V U) → Text → Text → Bridge → Bridge × List (Call F V U)
handle_datagram parse remote raw b =
    let calls =
      process parse b.dependencies (record { transport = codes "udp"; endpoint = remote }) raw in
    if has_failed (parse raw) || not (is_empty b.node_addr)
    then (b, calls)
    else (record b { learned = some remote }, calls)

-- `none` is `ErrNodeNotDetected`.
abbrev pub nonempty : Option Text → Option Text
nonempty none = none
nonempty (some addr) = if is_empty addr then none else some addr

unfoldable pub effective_node_addr : Bridge → Option Text
effective_node_addr b = if not (is_empty b.node_addr) then some b.node_addr else nonempty b.learned

-- `sent` is the address and the payload that are handed to the network.
pub data Sending : Type 0 where
  refused : TextError → Sending
  dry_run not_detected : Sending
  sent : Text → Text → Sending

abbrev pub to_node : Option Text → Text → Sending
to_node none payload = not_detected
to_node (some addr) payload = sent addr payload

abbrev pub send_payload : Bridge → Text → Sending
send_payload b payload = if b.disable_tx then dry_run else to_node (effective_node_addr b) payload

abbrev pub send_outgoing : (OutgoingText → Text) → Bridge → Outgoing → Sending
send_outgoing encode b (err e) = refused e
send_outgoing encode b (ok outgoing) = send_payload b (encode outgoing)

-- `SendText`; `json.Marshal` is an argument.
unfoldable pub send_text : (OutgoingText → Text) → Bridge → Text → Text → ℕ → Sending
send_text encode b destination message max_length =
    send_outgoing encode b (new_outgoing_text destination message max_length)
