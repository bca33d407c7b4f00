-- ===== src/Console/Decoder.antt =====
-- internal/consolecodec/decoder.go: `Decoder`, which cuts a stream into records.
pub mod Lines
pub mod Payloads
use gomeshcom_client.Prelude.{
  ℕ, ◌+◌, Bool, true, false, List, [], ◌∷◌, ◌++◌, Option, none, some, is_empty, length,
  if◌then◌else◌, leb, ◌==◌,
}
use gomeshcom_client.Text.{Text, trim_suffix}
use gomeshcom_client.Console.Extract.{
  RecordError, record_too_long, Extracted, unsupported, payload, malformed, extract_ext_payload,
}

pub record DecodeResult : Type 0 where
  pub payloads : List Text
  pub errors : List RecordError

pub record Decoder : Type 0 where
  pub max_record_bytes : ℕ
  pub pending : Text
  pub discarding : Bool

unfoldable pub new_decoder : ℕ → Option Decoder
new_decoder max =
    if leb max 0
    then none
    else some (record { max_record_bytes = max; pending = []; discarding = false })

abbrev pub empty_result : DecodeResult
empty_result = record { payloads = []; errors = [] }

abbrev pub add_error : RecordError → DecodeResult → DecodeResult
add_error e r = record r { errors = r.errors ++ (e ∷ []) }

-- The end of `finishRecord`, on what `extractExtPayload` returned.
unfoldable pub note_extracted : Extracted → DecodeResult → DecodeResult
note_extracted unsupported r = r
note_extracted (payload p) r = record r { payloads = r.payloads ++ (p ∷ []) }
note_extracted (malformed e) r = add_error e r

-- The result of `finishRecord` on a record; the buffer is emptied by the callers below.
unfoldable pub note_record : Text → DecodeResult → DecodeResult
note_record rec r = note_extracted (extract_ext_payload (trim_suffix (b'\r' ∷ []) rec)) r

unfoldable pub finish_record : Decoder → DecodeResult → Decoder × DecodeResult
finish_record d r = (record d { pending = [] }, note_record d.pending r)

unfoldable pub consume_byte : ℕ → Decoder → DecodeResult → Decoder × DecodeResult
consume_byte value d r =
    if d.discarding
    then (if value == b'\n' then record d { discarding = false } else d, r)
    else if value == b'\n'
    then finish_record d r
    else if leb d.max_record_bytes (length d.pending)
    then (record d { pending = []; discarding = true }, add_error record_too_long r)
    else (record d { pending = d.pending ++ (value ∷ []) }, r)

-- The loop of `Feed`, with the result collected so far.
unfoldable pub feed_onto : Text → Decoder → DecodeResult → Decoder × DecodeResult
feed_onto [] d r = (d, r)
feed_onto (value ∷ more) d r = let s = consume_byte value d r in feed_onto more s.0 s.1

unfoldable pub feed : Text → Decoder → Decoder × DecodeResult
feed input d = feed_onto input d empty_result

unfoldable pub flush : Decoder → Decoder × DecodeResult
flush d =
    if d.discarding
    then (record d { discarding = false; pending = [] }, empty_result)
    else if is_empty d.pending
    then (d, empty_result)
    else finish_record d empty_result

unfoldable pub buffered_bytes : Decoder → ℕ
buffered_bytes d = length d.pending
