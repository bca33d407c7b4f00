-- ===== src/HttpApi/Compression.antt =====
-- internal/httpapi/compression.go: the response writer. The writer below it and the gzip writer, which
-- do not fail here, are the bytes that they are given.
pub mod Negotiation
pub mod Whole
use gomeshcom_client.Prelude.{
  ℕ, Bool, true, false, not, ◌&&◌, ◌||◌, List, [], ◌∷◌, ◌++◌, Option, none, some, is_empty, length,
  if◌then◌else◌, ltb, leb, ◌==◌,
}
use gomeshcom_client.Text.{
  Text, codes, text_eq, to_lower, trim_space, before, split, contains, has_prefix,
}

-- The headers that the writer reads and sets; an absent one is empty.
pub record Headers : Type 0 where
  pub content_encoding : Text
  pub content_range : Text
  pub content_type : Text
  pub content_length : Text
  pub vary : Text

pub data State : Type 0 where
  undecided compressing bypassed : State

-- `compressionResponseWriter`. What has gone below: the headers, if they have, with the status, the
-- bytes that were written there, and those that the gzip writer was given, with its end.
pub record ResponseWriter : Type 0 where
  pub minimum_size : ℕ
  pub headers : Headers
  pub buf : Text
  pub status_code : ℕ
  pub state : State
  pub forwarded : Option (ℕ × Headers)
  pub plain : Text
  pub zipped : Text
  pub gz_open : Bool

unfoldable pub header_forwarded : ResponseWriter → Bool
header_forwarded w = elim (w.forwarded) [ none ↦ false | some f ↦ true ]

abbrev pub or_ok : ℕ → ℕ
or_ok code = if code == 0 then 200 else code

-- `if c.statusCode == 0 {...}; c.ResponseWriter.WriteHeader(c.statusCode); c.headerForwarded = true`
unfoldable pub forward_header : ResponseWriter → ResponseWriter
forward_header w = record w {
  status_code = or_ok w.status_code;
  forwarded = some (or_ok w.status_code, w.headers);
}

unfoldable pub forward_bypass : ResponseWriter → ResponseWriter
forward_bypass w =
    let bypassing = record w { state = bypassed } in
    if header_forwarded w then bypassing else forward_header bypassing

unfoldable pub forward_bypass_with_buf : ResponseWriter → ResponseWriter
forward_bypass_with_buf w =
    let w' = forward_bypass w in record w' { plain = w'.plain ++ w'.buf; buf = [] }

unfoldable pub write_header : ℕ → ResponseWriter → ResponseWriter
write_header code w =
    if header_forwarded w
    then w
    else let w' = record w { status_code = code } in
      if code == 204 || (code == 304 || ltb code 200) then forward_bypass w' else w'

-- `addVary`
unfoldable pub has_value : Text → List Text → Bool
has_value v [] = false
has_value v (part ∷ parts) = text_eq (to_lower (trim_space part)) (to_lower v) || has_value v parts

unfoldable pub add_vary : Text → Headers → Headers
add_vary v h =
    if is_empty h.vary
    then record h { vary = v }
    else if has_value v (split b',' h.vary)
    then h
    else record h { vary = h.vary ++ (codes ", " ++ v) }

abbrev pub compressible_prefixes : List Text
compressible_prefixes =
    codes "text/"
    ∷ codes "application/json"
    ∷ codes "application/javascript"
    ∷ codes "application/x-javascript"
    ∷ codes "application/xml"
    ∷ codes "application/xhtml+xml"
    ∷ codes "application/atom+xml"
    ∷ codes "application/rss+xml"
    ∷ codes "image/svg+xml"
    ∷ []

unfoldable pub any_prefix : Text → List Text → Bool
any_prefix s [] = false
any_prefix s (p ∷ ps) = has_prefix p s || any_prefix s ps

unfoldable pub is_compressible : Text → Bool
is_compressible content_type =
    let ct = to_lower (trim_space (before b';' content_type)) in
    not (is_empty ct) && any_prefix ct compressible_prefixes

-- The switch to compression in `decide`.
unfoldable pub start_gzip : ResponseWriter → ResponseWriter
start_gzip w =
    let headers =
      add_vary (codes "Accept-Encoding")
        (record (w.headers) { content_length = []; content_encoding = codes "gzip" }) in
    let w' = forward_header (record w { state = compressing; headers = headers }) in
    record w' { gz_open = true; zipped = w'.zipped ++ w'.buf; buf = [] }

unfoldable pub is_event_stream : Text → Bool
is_event_stream ct = contains (codes "text/event-stream") (to_lower ct)

unfoldable pub decide_type : ResponseWriter → ResponseWriter
decide_type w =
    if is_event_stream w.headers.content_type || not (is_compressible w.headers.content_type)
    then forward_bypass_with_buf w
    else start_gzip w

-- `detect` is `http.DetectContentType`.
module _ (detect : Text → Text) where
  unfoldable pub with_type : ResponseWriter → ResponseWriter
  with_type w =
      if is_empty w.headers.content_type && not (is_empty w.buf)
      then record w { headers = record (w.headers) { content_type = detect w.buf } }
      else w

  unfoldable pub decide : ResponseWriter → ResponseWriter
  decide w =
      if not (is_empty w.headers.content_encoding) || not (is_empty w.headers.content_range)
      then forward_bypass_with_buf w
      else decide_type (with_type w)

  -- `Write` of bytes that are there, by the state.
  unfoldable pub write_in : State → Text → ResponseWriter → ResponseWriter
  write_in bypassed b w =
      let w' = if header_forwarded w then w else forward_bypass w in
      record w' { plain = w'.plain ++ b }
  write_in compressing b w = record w { zipped = w.zipped ++ b }
  write_in undecided b w =
      if header_forwarded w
      then record w { plain = w.plain ++ b }
      else let w' = record w { buf = w.buf ++ b } in
        if leb w.minimum_size (length w'.buf) then decide w' else w'

  unfoldable pub write : Text → ResponseWriter → ResponseWriter
  write b w = if is_empty b then w else write_in w.state b w

unfoldable pub close_in : State → ResponseWriter → ResponseWriter
close_in undecided w = forward_bypass_with_buf w
close_in compressing w =
    let w' = if w.gz_open then record w { gz_open = false } else w in
    if header_forwarded w' then w' else forward_bypass w'
close_in bypassed w = if header_forwarded w then w else forward_bypass w

-- `close`
unfoldable pub close : ResponseWriter → ResponseWriter
close w = close_in w.state w

-- `Flush`, but for the flushing of the writers below.
unfoldable pub flush : ResponseWriter → ResponseWriter
flush w = elim (w.state) [ undecided ↦ forward_bypass_with_buf w | _ ↦ w ]
