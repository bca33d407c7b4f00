-- ===== src/PacketIngest/Filing.antt =====
-- internal/packetingest/processor.go: messages that are stored, and the read state that is told.
use gomeshcom_client.Prelude.{
  ◌≡◌, ◌⊎◌, Bool, true, false, not, is_empty, ◌&&◌, List, [], ◌∷◌, arith, if◌then◌else◌, Bool-cases,
  inl, inr,
}
use gomeshcom_client.Text.{Text, text_eq}
use gomeshcom_client.Callsign.Grammar.{IsCallsign}
use gomeshcom_client.Meshcom.Tags.{is_ack_or_reject}
use gomeshcom_client.Meshcom.Notice.{is_store_notice}
use gomeshcom_client.Chatlog.Ids.{
  base_call, origin, status_key, filename_for_msg, conversation_id, file_id_for_api_id,
}
use gomeshcom_client.Chatlog.Routing.{trim_suffix-nil}
use gomeshcom_client.Chatlog.Keys.{file_id-status_key}
use gomeshcom_client.Chatlog.Records.{TextMessage}
use gomeshcom_client.PacketIngest.{
  Source, text, Parsed, parsed, Dependencies, Call, append_message, record_incoming, my_call,
  call_if, record_incoming_status, log_chat_message, store_packet, process_parsed, process,
}

-- Whether a message is reported as unread.
abbrev is_reported : Dependencies → TextMessage → Bool
is_reported d m =
    not (is_store_notice m.message)
    && d.chat_log
    && d.chat_status
    && not (is_ack_or_reject m.message)
    && not (text_eq (base_call (origin m.source)) (base_call (my_call d)))
    && not (text_eq (status_key m.source m.destination (my_call d)) [])

-- Whether the chat log keeps a message that it is given: `Append` drops one whose name is empty.
abbrev pub is_kept : Text → TextMessage → Bool
is_kept my m = not (is_empty (filename_for_msg m.source m.destination my))

-- Whether a message is stored.
abbrev pub is_stored : Dependencies → TextMessage → Bool
is_stored d m = not (is_store_notice m.message) && d.chat_log && is_kept (my_call d) m

file_id-nil : (id : Text) → text_eq (file_id_for_api_id id) [] ≡ true → text_eq id [] ≡ true
unfolding file_id_for_api_id text_eq
file_id-nil id h = ground arith

conversation_id-nil :
    (src dst my : Text)
    → is_empty (filename_for_msg src dst my) ≡ true
    → text_eq (conversation_id src dst my) [] ≡ true
unfolding conversation_id text_eq
conversation_id-nil src dst my h = ground (arith, trim_suffix-nil)

module _ {F V U : Type 0} where
  -- The messages that the chat log of a station with a callsign keeps of the calls.
  abbrev pub stored : Text → List (Call F V U) → List TextMessage
  stored my [] = []
  stored my (append_message m ∷ calls) =
      let rest = stored my calls in if is_kept my m then m ∷ rest else rest
  stored my (c ∷ calls) = stored my calls

  -- The keys for which the calls report an unread message.
  abbrev pub reported : List (Call F V U) → List Text
  reported [] = []
  reported (record_incoming key msg ∷ calls) = key ∷ reported calls
  reported (c ∷ calls) = reported calls

  process-parts :
      (parse : Text → Parsed F V U) (d : Dependencies) (source : Source) (raw kind : Text)
      (m : TextMessage)
      → parse raw ≡ parsed kind (text m)
      → (stored (my_call d) (process parse d source raw) ≡ (if is_stored d m then m ∷ [] else []))
        × (reported (process parse d source raw)
            ≡ (if is_reported d m then status_key m.source m.destination (my_call d) ∷ [] else []))
  unfolding process process_parsed store_packet call_if log_chat_message record_incoming_status
  process-parts parse d source raw kind m h = rw h (ground arith, ground arith)

  -- For an operator with a callsign of the grammar, and a packet that parses as a text message:
  -- the message is stored once if there is a chat log, the message is no custody notice and it has a
  -- conversation of the operator, which a direct message between other stations has not, and else not
  -- at all. If a key is reported, it is one, it leads to the conversation in which the message is
  -- stored, and the message is stored, is no acknowledgement and comes from another base call.
  pub process-text :
      (parse : Text → Parsed F V U) (d : Dependencies) (source : Source) (raw kind : Text)
      (m : TextMessage)
      → parse raw ≡ parsed kind (text m)
      → IsCallsign (my_call d)
      → (stored (my_call d) (process parse d source raw) ≡ (if is_stored d m then m ∷ [] else []))
        × ((reported (process parse d source raw) ≡ [])
            ⊎ ((key : Text) × (reported (process parse d source raw) ≡ key ∷ [])
                × (file_id_for_api_id key ≡ conversation_id m.source m.destination (my_call d))
                × (stored (my_call d) (process parse d source raw) ≡ m ∷ [])
                × (is_ack_or_reject m.message ≡ false)
                × (text_eq (base_call (origin m.source)) (base_call (my_call d)) ≡ false)))
  unfolding process process_parsed store_packet call_if log_chat_message record_incoming_status
  process-text parse d source raw kind m h c =
      let key = status_key m.source m.destination (my_call d) in
      let same = file_id-status_key m.source m.destination (my_call d) c in
      let (s, r) = process-parts parse d source raw kind m h in
      (
        s,
        elim (Bool-cases (is_reported d m)) [
          | inr n ↦ inl (ground arith)
          | inl y ↦ inr (
            key,
            ground arith,
            same,
            ground (
              arith,
              file_id-nil key,
              same,
              conversation_id-nil m.source m.destination (my_call d),
            ),
            ground arith,
            ground arith,
          )
        ],
      )
