-- ===== src/Console/Extract.antt =====
-- internal/consolecodec/decoder.go: the payload of one record.
pub mod Scan
use gomeshcom_client.Prelude.{
  ℕ, zero, suc, ◌+◌, Bool, true, false, not, ◌&&◌, ◌||◌, List, [], ◌∷◌, Option, none, some, all,
  length, take, drop, if◌then◌else◌, ltb, ◌==◌,
}
use gomeshcom_client.Text.{Text, codes, is_digit, trim_space, cut_prefix, index}

pub record ScanState : Type 0 where
  pub depth : ℕ
  pub in_string : Bool
  pub escaped : Bool

-- What one byte does to `matchingObjectEnd`: the object is closed, a brace closes nothing, or the
-- scan goes on.
pub data ScanStep : Type 0 where
  closed broken : ScanStep
  next : ScanState → ScanStep

-- `depth--`, with the two tests behind it.
unfoldable pub close_brace : ScanState → ℕ → ScanStep
close_brace st zero = broken
close_brace st (suc zero) = closed
close_brace st (suc (suc d)) = next (record st { depth = suc d })

unfoldable pub scan_step : ScanState → ℕ → ScanStep
scan_step st c =
    if st.in_string
    then next (
        if st.escaped
        then record st { escaped = false }
        else if c == b'\\'
        then record st { escaped = true }
        else if c == b'"'
        then record st { in_string = false }
        else st)
    else if c == b'"'
    then next (record st { in_string = true })
    else if c == b'{'
    then next (record st { depth = suc st.depth })
    else if c == b'}'
    then close_brace st st.depth
    else next st

-- The loop; `i` is `index`.
unfoldable pub scan : ℕ → ScanState → Text → Option ℕ
scan i st [] = none
scan i st (c ∷ s) = elim (scan_step st c) [
  | closed ↦ some (suc i)
  | broken ↦ none
  | next st' ↦ scan (suc i) st' s
]

abbrev pub outside : ScanState
outside = record { depth = 0; in_string = false; escaped = false }

unfoldable pub matching_object_end : Text → Option ℕ
matching_object_end s = scan 0 outside s

-- `len("[00:00:00]")`
abbrev pub capture_len : ℕ
capture_len = 10

-- `isCaptureTime`: two digits, a colon, two digits, a colon, two digits.
unfoldable pub is_capture_time : Text → Bool
is_capture_time (a ∷ b ∷ c ∷ d ∷ e ∷ f ∷ g ∷ h ∷ []) =
    (c == b':' && f == b':')
    && (is_digit a && (is_digit b && (is_digit d && (is_digit e && (is_digit g && is_digit h)))))
is_capture_time _ = false

abbrev starts_with : ℕ → Text → Bool
starts_with b [] = false
starts_with b (c ∷ s) = c == b

unfoldable pub trim_capture_prefix : Text → Text
trim_capture_prefix rec =
    if ltb (length rec) capture_len || not (starts_with b'[' rec)
    then rec
    else elim (index b']' rec) [
      | none ↦ rec
      | some close ↦
          if not (close == 9) || not (is_capture_time (take 8 (drop 1 rec)))
          then rec
          else trim_space (drop 10 rec)
    ]

abbrev pub tele_marker : Text
tele_marker = codes "[EXT] Tele-Out: "

abbrev pub out_marker : Text
out_marker = codes "[EXT] Out: "

-- The body behind the first marker that fits.
unfoldable pub ext_body : Text → Option Text
ext_body rec = elim (cut_prefix tele_marker rec) [
  | some body ↦ some body
  | none ↦ cut_prefix out_marker rec
]

pub data RecordError : Type 0 where
  record_too_long missing_object incomplete_object : RecordError

-- `(nil, false, nil)`, a payload, or an error.
pub data Extracted : Type 0 where
  unsupported : Extracted
  payload : Text → Extracted
  malformed : RecordError → Extracted

unfoldable pub extract_object : Text → Extracted
extract_object body = elim (index b'{' body) [
  | none ↦ malformed missing_object
  | some start ↦ elim (matching_object_end (drop start body)) [
    | none ↦ malformed incomplete_object
    | some end ↦ payload (take end (drop start body))
  ]
]

unfoldable pub extract_ext_payload : Text → Extracted
extract_ext_payload rec = elim (ext_body (trim_capture_prefix (trim_space rec))) [
  | none ↦ unsupported
  | some body ↦ extract_object body
]
