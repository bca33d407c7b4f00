-- ===== src/HttpApi/Compression/Negotiation.antt =====
-- internal/httpapi/compression.go: which requests are answered compressed.
use gomeshcom_client.Prelude.{
  suc, Bool, true, false, not, List, [], ◌∷◌, Option, none, some, is_empty, if◌then◌else◌, drop,
}
use gomeshcom_client.Text.{
  Text, codes, text_eq, to_lower, trim_space, before, split, index, has_prefix,
}

-- A `float64` by its sign.
pub data Quality : Type 0 where
  negative zero_quality positive not_a_number : Quality

-- `if err != nil || v < 0 { q = 0 } else { q = v }`
unfoldable pub quality_of : Option Quality → Quality
quality_of none = zero_quality
quality_of (some negative) = zero_quality
quality_of (some q) = q

-- `parse_float` is `strconv.ParseFloat`.
module _ (parse_float : Text → Option Quality) where
  unfoldable pub quality_in : Text → Quality
  quality_in param =
      if has_prefix (codes "q=") (to_lower param)
      then quality_of (parse_float (trim_space (drop 2 param)))
      else positive

  unfoldable pub parse_encoding_token : Text → Text × Quality
  parse_encoding_token token = (
    trim_space (before b';' token),
    elim (index b';' token) [
      | none ↦ positive
      | some i ↦ quality_in (trim_space (drop (suc i) token))
    ],
  )

  -- `gzipQ` and `wildcardQ`; `none` is -1.
  pub record Offers : Type 0 where
    pub gzip : Option Quality
    pub wildcard : Option Quality

  unfoldable pub note_token : Text → Offers → Offers
  note_token token o =
      let (coding, q) = parse_encoding_token token in
      if text_eq (to_lower coding) (codes "gzip")
      then record o { gzip = some q }
      else if text_eq (to_lower coding) (codes "*")
      then record o { wildcard = some q }
      else o

  unfoldable pub read_tokens : List Text → Offers → Offers
  read_tokens [] o = o
  read_tokens (token ∷ more) o =
      let t = trim_space token in read_tokens more (if is_empty t then o else note_token t o)

  -- `if q >= 0 { return q > 0 }` before the rest.
  unfoldable pub judge : Option Quality → Bool → Bool
  judge (some positive) rest = true
  judge (some zero_quality) rest = false
  judge _ rest = rest

  unfoldable pub accepts_gzip : Text → Bool
  accepts_gzip header =
      let o = read_tokens (split b',' header) (record { gzip = none; wildcard = none }) in
      if is_empty header then false else judge o.gzip (judge o.wildcard false)

  -- Whether `compressionMiddleware` puts its writer between, at a path, the header Range and the
  -- header Accept-Encoding.
  unfoldable pub is_wrapped : Text → Text → Text → Bool
  is_wrapped path range accept_encoding =
      if text_eq path (codes "/api/events")
      then false
      else if not (is_empty range)
      then false
      else accepts_gzip accept_encoding
