-- ===== src/Console/Decoder/Payloads.antt =====
-- internal/consolecodec/decoder.go: a record of the node, from the bytes of the stream to the
-- payload.
use gomeshcom_client.Prelude.{
  ℕ, ◌≤◌, ◌≡◌, refl, ap, ◌∙◌, sym, true, [], ◌∷◌, ◌++◌, some, arith, length, append_assoc,
}
use gomeshcom_client.Text.{Text, index, trim_space, trim_left, trim_right, cut_prefix}
use gomeshcom_client.Text.Search.{lacks, trim_suffix-append}
use gomeshcom_client.Text.Trim.{trim_right-solid}
use gomeshcom_client.Console.Extract.{
  payload, extract_ext_payload, tele_marker, out_marker, trim_capture_prefix, ext_body,
}
use gomeshcom_client.Console.Extract.Scan.{Items, braces, extract_object-Items}
use gomeshcom_client.Console.Decoder.{note_extracted, note_record, feed}
use gomeshcom_client.Console.Decoder.Lines.{fresh, note_line, feed-unlines}

-- The two markers of the firmware.
pub data IsMarker : Text → Type 0 where
  tele : IsMarker tele_marker
  out : IsMarker out_marker

-- A marked text is no captured line with a time in front, and its body is found.
marked-body :
    {marker : Text} (body : Text)
    → IsMarker marker
    → ext_body (trim_capture_prefix (marker ++ body)) ≡ some body
unfolding ext_body trim_capture_prefix index cut_prefix
marked-body body tele = ground arith
marked-body body out = ground arith

marked-trim_left :
    {marker : Text} (body : Text) → IsMarker marker → trim_left (marker ++ body) ≡ marker ++ body
unfolding trim_left
marked-trim_left body tele = refl
marked-trim_left body out = refl

shift :
    (marker junk a u : Text)
    → marker ++ (junk ++ (b'{' ∷ (a ++ (b'}' ∷ u))))
      ≡ (marker ++ (junk ++ (b'{' ∷ a))) ++ (b'}' ∷ u)
shift marker junk a u = simp append_assoc

-- A record with a marker, anything but an open brace, an object of the grammar, and anything
-- behind it, yields that object.
pub extract_ext_payload-Items :
    {marker a : Text} (junk t : Text)
    → IsMarker marker
    → lacks b'{' junk ≡ true
    → Items a
    → extract_ext_payload (marker ++ (junk ++ (b'{' ∷ (a ++ (b'}' ∷ t))))) ≡ payload (braces a)
unfolding extract_ext_payload trim_space
extract_ext_payload-Items {marker} {a} junk t m l h =
    let body = λ (u : Text). junk ++ (b'{' ∷ (a ++ (b'}' ∷ u))) in
    let front = marker ++ (junk ++ (b'{' ∷ a)) in
    let shape = λ (u : Text). shift marker junk a u in
    let trimmed : trim_right (marker ++ body t) ≡ marker ++ body (trim_right t) =
      ap trim_right (shape t) ∙ trim_right-solid front b'}' t refl ∙ sym (shape (trim_right t)) in
    ground (
      arith,
      marked-trim_left (body t) m,
      trimmed,
      marked-body (body (trim_right t)) m,
      extract_object-Items junk (trim_right t) l h,
    )

-- A record of the node, ended by a carriage return and a newline and within the limit, becomes one
-- payload, the object that it carries, and no error. The decoder is ready for the next record.
pub feed-Items :
    {marker a : Text} (junk : Text) (max : ℕ)
    → IsMarker marker
    → Items a
    → lacks b'{' junk ≡ true
    → lacks b'\n' ((marker ++ (junk ++ braces a)) ++ (b'\r' ∷ [])) ≡ true
    → length ((marker ++ (junk ++ braces a)) ++ (b'\r' ∷ [])) ≤ max
    → feed (((marker ++ (junk ++ braces a)) ++ (b'\r' ∷ [])) ++ (b'\n' ∷ [])) (fresh max)
      ≡ (fresh max, record { payloads = braces a ∷ []; errors = [] })
unfolding note_line note_record note_extracted
feed-Items {marker} {a} junk max m h l n fits =
    let rec = marker ++ (junk ++ braces a) in
    let line = rec ++ (b'\r' ∷ []) in
    ground (
      arith,
      feed-unlines (line ∷ []) max,
      trim_suffix-append (b'\r' ∷ []) rec,
      extract_ext_payload-Items junk [] m l h,
    )
