-- ===== src/UdpBridge/Learned.antt =====
-- internal/udpbridge/bridge.go: the address that the bridge sends to after datagrams.
use gomeshcom_client.Prelude.{
  ℕ, ◌≡◌, false, List, [], ◌∷◌, Option, none, some, arith, is_empty, if◌then◌else◌,
}
use gomeshcom_client.Text.{Text}
use gomeshcom_client.Meshcom.Outgoing.{OutgoingText, validate_outgoing_text, new_outgoing_text}
use gomeshcom_client.PacketIngest.{Parsed}
use gomeshcom_client.UdpBridge.{
  Bridge, has_failed, handle_datagram, nonempty, effective_node_addr, to_node, send_text,
}

module _ {F V U : Type 0} (parse : Text → Parsed F V U) where
  -- Datagrams, each with the address it comes from.
  abbrev pub receive_all : List (Text × Text) → Bridge → Bridge
  receive_all [] b = b
  receive_all ((remote, raw) ∷ more) b = receive_all more (handle_datagram parse remote raw b).0

  -- The address of the last datagram that parses.
  abbrev pub last_parsed : Option Text → List (Text × Text) → Option Text
  last_parsed addr [] = addr
  last_parsed addr ((remote, raw) ∷ more) =
      last_parsed (if has_failed (parse raw) then addr else some remote) more

  receive_all-fields :
      (ds : List (Text × Text)) (b : Bridge)
      → ((receive_all ds b).node_addr ≡ b.node_addr)
        × ((receive_all ds b).disable_tx ≡ b.disable_tx)
        × ((receive_all ds b).learned
            ≡ (if is_empty b.node_addr then last_parsed b.learned ds else b.learned))
  unfolding handle_datagram
  receive_all-fields [] b = ground arith
  receive_all-fields ((remote, raw) ∷ more) b = ground (
    arith,
    receive_all-fields more b,
    receive_all-fields more (handle_datagram parse remote raw b).0,
  )

  -- Where sending is enabled and the text is valid, it is sent to the configured address; if none
  -- is configured, to the address of the last datagram so far that has parsed, or an error is
  -- returned if there is none.
  pub send_text-addr :
      (encode : OutgoingText → Text) (ds : List (Text × Text)) (b : Bridge)
      (destination message : Text) (max_length : ℕ)
      → b.learned ≡ none
      → b.disable_tx ≡ false
      → validate_outgoing_text destination message max_length ≡ none
      → send_text encode (receive_all ds b) destination message max_length
        ≡ to_node
            (if is_empty b.node_addr then nonempty (last_parsed none ds) else some b.node_addr)
            (encode (record { destination = destination; message = message }))
  unfolding send_text new_outgoing_text effective_node_addr
  send_text-addr encode ds b destination message max_length n t v =
      ground (arith, receive_all-fields ds b)
