-- ===== src/Console/Decoder/Lines.antt =====
-- internal/consolecodec/decoder.go: the stream decoder, line by line.
use gomeshcom_client.Prelude.{
  ℕ, ◌≤◌, ◌≡◌, refl, ◌∙◌, true, false, inl, inr, List, [], ◌∷◌, ◌++◌, arith, Bool-cases, all,
  length, length-append, leb, if◌then◌else◌, append_assoc, append-nil,
}
use gomeshcom_client.Text.{Text}
use gomeshcom_client.Text.Search.{lacks}
use gomeshcom_client.Console.Extract.{record_too_long, payload, malformed, unsupported, Extracted}
use gomeshcom_client.Console.Decoder.{
  DecodeResult, Decoder, empty_result, add_error, note_extracted, note_record, finish_record,
  consume_byte, feed_onto, feed,
}

-- The buffer never outgrows the limit, and is empty while a line is discarded.
pub record IsBounded (d : Decoder) : Type 0 where
  pub bounded : length d.pending ≤ d.max_record_bytes
  pub dropped : d.discarding ≡ true → d.pending ≡ []

consume_byte-IsBounded :
    (value : ℕ) (d : Decoder) (r : DecodeResult)
    → IsBounded d
    → IsBounded (consume_byte value d r).0
unfolding consume_byte finish_record
consume_byte-IsBounded value d r b = ground (arith, length-append d.pending (value ∷ []))

feed_onto-IsBounded :
    (more : Text) (d : Decoder) (r : DecodeResult) → IsBounded d → IsBounded (feed_onto more d r).0
unfolding feed_onto
feed_onto-IsBounded [] d r b = b
feed_onto-IsBounded (value ∷ more) d r b =
    let s = consume_byte value d r in
    feed_onto-IsBounded more s.0 s.1 (consume_byte-IsBounded value d r b)

-- Results joined in order.
abbrev pub join : DecodeResult → DecodeResult → DecodeResult
join a b = record { payloads = a.payloads ++ b.payloads; errors = a.errors ++ b.errors }

note_extracted-join :
    (e : Extracted) (a r : DecodeResult) → note_extracted e (join a r) ≡ join a (note_extracted e r)
unfolding note_extracted
note_extracted-join unsupported a r = refl
note_extracted-join (payload p) a r = ground (arith, append_assoc a.payloads r.payloads (p ∷ []))
note_extracted-join (malformed e) a r = ground (arith, append_assoc a.errors r.errors (e ∷ []))

note_record-join :
    (rec : Text) (a r : DecodeResult) → note_record rec (join a r) ≡ join a (note_record rec r)
unfolding note_record
note_record-join rec a r = note_extracted-join _ a r

-- One byte adds to the result behind what is there, and its effect on the state does not depend
-- on the result.
consume_byte-join :
    (value : ℕ) (d : Decoder) (a r : DecodeResult)
    → ((consume_byte value d (join a r)).1 ≡ join a (consume_byte value d r).1)
      × ((consume_byte value d (join a r)).0 ≡ (consume_byte value d r).0)
unfolding consume_byte finish_record
consume_byte-join value d a r =
    ground
      (arith, note_record-join d.pending a r, append_assoc a.errors r.errors (record_too_long ∷ []))

feed_onto-join :
    (more : Text) (d : Decoder) (a r : DecodeResult)
    → ((feed_onto more d (join a r)).1 ≡ join a (feed_onto more d r).1)
      × ((feed_onto more d (join a r)).0 ≡ (feed_onto more d r).0)
unfolding feed_onto
feed_onto-join [] d a r = (refl, refl)
feed_onto-join (value ∷ more) d a r =
    let (e, f) = consume_byte-join value d a r in
    let s = consume_byte value d r in ground (arith, e, f, feed_onto-join more s.0 a s.1)

feed_onto-append :
    (x y : Text) (d : Decoder) (r : DecodeResult)
    → feed_onto (x ++ y) d r ≡ feed_onto y (feed_onto x d r).0 (feed_onto x d r).1
unfolding feed_onto
feed_onto-append [] y d r = refl
feed_onto-append (value ∷ x) y d r = let s = consume_byte value d r in feed_onto-append x y s.0 s.1

-- The decoder between two lines.
abbrev pub fresh : ℕ → Decoder
fresh max = record { max_record_bytes = max; pending = []; discarding = false }

abbrev holding : ℕ → Text → Decoder
holding max held = record { max_record_bytes = max; pending = held; discarding = false }

abbrev dropping : ℕ → Decoder
dropping max = record { max_record_bytes = max; pending = []; discarding = true }

-- What one whole line adds to the result.
unfoldable pub note_line : ℕ → Text → DecodeResult → DecodeResult
note_line max line r =
    if leb (length line) max then note_record line r else add_error record_too_long r

feed_onto-dropping :
    (line rest : Text) (max : ℕ) (r : DecodeResult)
    → lacks b'\n' line ≡ true
    → feed_onto (line ++ (b'\n' ∷ rest)) (dropping max) r ≡ feed_onto rest (fresh max) r
unfolding feed_onto consume_byte
feed_onto-dropping [] rest max r l = refl
feed_onto-dropping (c ∷ line) rest max r l = ground (arith, feed_onto-dropping line rest max r)

feed_onto-holding :
    (line held rest : Text) (max : ℕ) (r : DecodeResult)
    → length held ≤ max
    → lacks b'\n' line ≡ true
    → feed_onto (line ++ (b'\n' ∷ rest)) (holding max held) r
      ≡ feed_onto rest (fresh max) (note_line max (held ++ line) r)
unfolding feed_onto consume_byte finish_record note_line
feed_onto-holding [] held rest max r b l = ground (arith, append-nil held)
feed_onto-holding (c ∷ line) held rest max r b l = elim (Bool-cases (leb max (length held))) [
  | inl full ↦ ground (
    arith,
    length-append held (c ∷ line),
    feed_onto-dropping line rest max (add_error record_too_long r),
  )
  | inr room ↦ ground (
    arith,
    append_assoc held (c ∷ []) line,
    length-append held (c ∷ []),
    feed_onto-holding line (held ++ (c ∷ [])) rest max r,
  )
]

-- Lines, each with its newline.
abbrev pub unlines : List Text → Text
unlines [] = []
unlines (line ∷ lines) = line ++ (b'\n' ∷ unlines lines)

abbrev pub note_lines : ℕ → List Text → DecodeResult → DecodeResult
note_lines max [] r = r
note_lines max (line ∷ lines) r = note_lines max lines (note_line max line r)

feed_onto-unlines :
    (lines : List Text) (max : ℕ) (r : DecodeResult)
    → all (lacks b'\n') lines ≡ true
    → feed_onto (unlines lines) (fresh max) r ≡ (fresh max, note_lines max lines r)
unfolding feed_onto
feed_onto-unlines [] max r l = refl
feed_onto-unlines (line ∷ lines) max r l =
    feed_onto-holding line [] (unlines lines) max r (omega arith) (ground arith)
    ∙ feed_onto-unlines lines max (note_line max line r) (ground arith)

-- A decoder between two lines that is fed whole lines is between two lines again. Each line has
-- its own effect on the result, in order: one within the limit is read as a record, and a longer
-- one gives one error and nothing else, so that the next line is read as if it had not been there.
pub feed-unlines :
    (lines : List Text) (max : ℕ)
    → all (lacks b'\n') lines ≡ true
    → feed (unlines lines) (fresh max) ≡ (fresh max, note_lines max lines empty_result)
unfolding feed
feed-unlines lines max l = feed_onto-unlines lines max empty_result l

join-empty : (r : DecodeResult) → join r empty_result ≡ r
join-empty r = ground (arith, append-nil r.payloads, append-nil r.errors)

-- The result does not depend on how the stream is cut into reads.
pub feed-append :
    (x y : Text) (d : Decoder)
    → feed (x ++ y) d ≡ ((feed y (feed x d).0).0, join (feed x d).1 (feed y (feed x d).0).1)
unfolding feed
feed-append x y d =
    let s = feed_onto x d empty_result in
    let (e, f) = feed_onto-join y s.0 s.1 empty_result in
    feed_onto-append x y d empty_result ∙ ground (arith, e, f, join-empty s.1)

-- However a decoder is fed, from the start on, its buffer stays within the limit, and it is empty
-- while a line is discarded.
pub feed-IsBounded : (more : Text) (d : Decoder) → IsBounded d → IsBounded (feed more d).0
unfolding feed
feed-IsBounded more d b = feed_onto-IsBounded more d empty_result b
