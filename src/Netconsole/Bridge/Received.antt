-- ===== src/Netconsole/Bridge/Received.antt =====
-- internal/netconsole/bridge.go: what `runSession` does with the bytes that it reads.
use gomeshcom_client.Prelude.{◌≡◌, refl, ◌⊎◌, List, [], ◌∷◌, ◌++◌, append_assoc, Option, arith}
use gomeshcom_client.Text.{Text}
use gomeshcom_client.Console.Decoder.{Decoder, feed, feed_onto}
use gomeshcom_client.Console.Decoder.Lines.{feed-append}
use gomeshcom_client.PacketIngest.{Parsed, Dependencies, Call}
use gomeshcom_client.Netconsole.Bridge.{process_payload, process_payloads, process_bytes}

-- The stream of the chunks.
abbrev pub concat : List Text → Text
concat [] = []
concat (raw ∷ more) = raw ++ concat more

module _ {F V U C : Type 0} (parse : Text → Parsed F V U) (d : Dependencies) (address : Text)
    (forward : Option (Text → C)) where
  -- The chunks that the reads return, one after the other.
  abbrev pub process_chunks : List Text → Decoder → Decoder × List (C ⊎ Call F V U)
  process_chunks [] decoder = (decoder, [])
  process_chunks (raw ∷ more) decoder =
      let (next, calls) = process_bytes parse d address forward raw decoder in
      let (last, rest) = process_chunks more next in (last, calls ++ rest)

  process_payloads-append :
      (xs ys : List Text)
      → process_payloads parse d address forward (xs ++ ys)
        ≡ process_payloads parse d address forward xs ++ process_payloads parse d address forward ys
  unfolding process_payloads
  process_payloads-append [] ys = refl
  process_payloads-append (x ∷ xs) ys = ground (
    arith,
    process_payloads-append xs ys,
    append_assoc (process_payload parse d address forward x)
        (process_payloads parse d address forward xs) (process_payloads parse d address forward ys),
  )

  -- The calls of the forwarder and of the processor, and the state of the decoder behind them, do
  -- not depend on how the stream is cut into reads.
  pub process_chunks-concat :
      (chunks : List Text) (decoder : Decoder)
      → process_chunks chunks decoder
        ≡ process_bytes parse d address forward (concat chunks) decoder
  unfolding process_bytes
  process_chunks-concat [] decoder = unfold feed feed_onto process_payloads in refl
  process_chunks-concat (raw ∷ more) decoder =
      let next = (feed raw decoder).0 in
      ground (
        arith,
        process_chunks-concat more next,
        feed-append raw (concat more) decoder,
        process_payloads-append (feed raw decoder).1.payloads (feed (concat more) next).1.payloads,
      )
