-- ===== src/HttpApi/Compression/Whole.antt =====
-- internal/httpapi/compression.go: what a response is below the writer.
use gomeshcom_client.Prelude.{
  ℕ, ◌≡◌, ◌⊎◌, subst, Bool, true, false, not, ◌&&◌, ◌||◌, List, [], ◌∷◌, ◌++◌, append-nil,
  append_assoc, Option, none, some, arith, ltb, ◌==◌,
}
use gomeshcom_client.Text.{Text, codes, text_eq}
use gomeshcom_client.HttpApi.Compression.{
  Headers, undecided, compressing, bypassed, ResponseWriter, header_forwarded, forward_header,
  forward_bypass, forward_bypass_with_buf, write_header, start_gzip, decide_type, with_type, decide,
  write_in, write, close_in, close, flush, add_vary,
}

-- What a handler does with the writer.
pub data Op : Type 0 where
  sets_header : (Headers → Headers) → Op
  writes_header : ℕ → Op
  writes : Text → Op
  flushes : Op

module _ (detect : Text → Text) where
  abbrev pub run : List Op → ResponseWriter → ResponseWriter
  run [] w = w
  run (sets_header f ∷ ops) w = run ops (record w { headers = f w.headers })
  run (writes_header code ∷ ops) w = run ops (write_header code w)
  run (writes b ∷ ops) w = run ops (write detect b w)
  run (flushes ∷ ops) w = run ops (flush w)

-- The bytes that were written.
abbrev pub written : List Op → Text
written [] = []
written (writes b ∷ ops) = b ++ written ops
written (sets_header f ∷ ops) = written ops
written (writes_header code ∷ ops) = written ops
written (flushes ∷ ops) = written ops

-- The headers that have gone below say gzip.
abbrev pub says_gzip : Option (ℕ × Headers) → Bool
says_gzip none = false
says_gzip (some (code, h)) = text_eq h.content_encoding (codes "gzip")

-- How the state stands to the bytes written so far.
abbrev IsWhole : Text → ResponseWriter → Type 0
IsWhole bytes w =
    (w.state ≡ undecided
      → (w.buf ≡ bytes) × (w.plain ≡ []) × (w.zipped ≡ []) × (header_forwarded w ≡ false))
    × (w.state ≡ compressing
        → (w.zipped ≡ bytes)
          × (w.plain ≡ [])
          × (w.buf ≡ [])
          × (header_forwarded w ≡ true)
          × (says_gzip w.forwarded ≡ true))
    × (w.state ≡ bypassed
        → (w.plain ≡ bytes) × (w.zipped ≡ []) × (w.buf ≡ []) × (header_forwarded w ≡ true))

forward_bypass_with_buf-IsWhole :
    (w : ResponseWriter) (bytes : Text)
    → w.state ≡ undecided
    → IsWhole bytes w
    → IsWhole bytes (forward_bypass_with_buf w)
unfolding forward_bypass_with_buf forward_bypass forward_header header_forwarded
forward_bypass_with_buf-IsWhole w bytes u h = ground arith

start_gzip-IsWhole :
    (w : ResponseWriter) (bytes : Text)
    → w.state ≡ undecided
    → IsWhole bytes w
    → IsWhole bytes (start_gzip w)
unfolding start_gzip forward_header header_forwarded add_vary text_eq
start_gzip-IsWhole w bytes u h = ground arith

flush-IsWhole : (w : ResponseWriter) (bytes : Text) → IsWhole bytes w → IsWhole bytes (flush w)
unfolding flush
flush-IsWhole w bytes h = ground (arith, forward_bypass_with_buf-IsWhole w bytes)

-- A status whose response may have a body.
abbrev pub has_body : ℕ → Bool
has_body code = not (code == 204 || (code == 304 || ltb code 200))

write_header-IsWhole :
    (code : ℕ) (w : ResponseWriter) (bytes : Text)
    → has_body code ≡ true
    → IsWhole bytes w
    → IsWhole bytes (write_header code w)
unfolding write_header header_forwarded
write_header-IsWhole code w bytes c h = ground arith

decide_type-IsWhole :
    (w : ResponseWriter) (bytes : Text)
    → w.state ≡ undecided
    → IsWhole bytes w
    → IsWhole bytes (decide_type w)
unfolding decide_type
decide_type-IsWhole w bytes u h =
    ground (arith, forward_bypass_with_buf-IsWhole w bytes u h, start_gzip-IsWhole w bytes u h)

-- The statuses that the handler sets may have a body.
abbrev pub have_body : List Op → Bool
have_body [] = true
have_body (writes_header code ∷ ops) = has_body code && have_body ops
have_body (sets_header f ∷ ops) = have_body ops
have_body (writes b ∷ ops) = have_body ops
have_body (flushes ∷ ops) = have_body ops

-- All of the bytes have gone below, plain or through gzip.
abbrev pub IsDelivered : Text → ResponseWriter → Type 0
IsDelivered bytes w =
    (w.buf ≡ [])
    × (((w.plain ≡ bytes) × (w.zipped ≡ []))
        ⊎ ((w.plain ≡ []) × (w.zipped ≡ bytes) × (says_gzip w.forwarded ≡ true)))

close-IsDelivered :
    (w : ResponseWriter) (bytes : Text) → IsWhole bytes w → IsDelivered bytes (close w)
unfolding close close_in forward_bypass_with_buf forward_bypass forward_header header_forwarded
close-IsDelivered w bytes h = ground arith

-- The writers that the middleware makes.
abbrev pub new_writer : ℕ → Headers → ResponseWriter
new_writer minimum_size headers = record {
  minimum_size = minimum_size;
  headers = headers;
  buf = [];
  status_code = 0;
  state = undecided;
  forwarded = none;
  plain = [];
  zipped = [];
  gz_open = false;
}

module _ (detect : Text → Text) where
  decide-IsWhole :
      (w : ResponseWriter) (bytes : Text)
      → w.state ≡ undecided
      → IsWhole bytes w
      → IsWhole bytes (decide detect w)
  unfolding decide with_type header_forwarded
  decide-IsWhole w bytes u h = ground (
    arith,
    forward_bypass_with_buf-IsWhole w bytes u h,
    decide_type-IsWhole (with_type detect w) bytes,
  )

  write-IsWhole :
      (b : Text) (w : ResponseWriter) (bytes : Text)
      → IsWhole bytes w
      → IsWhole (bytes ++ b) (write detect b w)
  unfolding write write_in header_forwarded
  write-IsWhole b w bytes h =
      ground (arith, append-nil bytes, decide-IsWhole (record w { buf = w.buf ++ b }) (bytes ++ b))

  run-IsWhole :
      (ops : List Op) (w : ResponseWriter) (bytes : Text)
      → have_body ops ≡ true
      → IsWhole bytes w
      → IsWhole (bytes ++ written ops) (run detect ops w)
  unfolding header_forwarded
  run-IsWhole [] w bytes c h = ground (arith, append-nil bytes)
  run-IsWhole (sets_header f ∷ ops) w bytes c h =
      run-IsWhole ops (record w { headers = f w.headers }) bytes c h
  run-IsWhole (writes_header code ∷ ops) w bytes c h =
      run-IsWhole ops (write_header code w) bytes (ground arith)
        (write_header-IsWhole code w bytes (ground arith) h)
  run-IsWhole (writes b ∷ ops) w bytes c h =
      subst (λ t. IsWhole t (run detect ops (write detect b w)))
        (append_assoc bytes b (written ops))
        (run-IsWhole ops (write detect b w) (bytes ++ b) c (write-IsWhole b w bytes h))
  run-IsWhole (flushes ∷ ops) w bytes c h =
      run-IsWhole ops (flush w) bytes c (flush-IsWhole w bytes h)

  -- Whatever a handler does with the writer, if it sets no status without a body: behind it, the
  -- bytes that it has written have all gone below, in order, either as they are or through gzip with
  -- a header that says so.
  pub run-IsDelivered :
      (ops : List Op) (minimum_size : ℕ) (headers : Headers)
      → have_body ops ≡ true
      → IsDelivered (written ops) (close (run detect ops (new_writer minimum_size headers)))
  unfolding header_forwarded
  run-IsDelivered ops minimum_size headers c =
      let fresh = new_writer minimum_size headers in
      close-IsDelivered (run detect ops fresh) (written ops)
        (run-IsWhole ops fresh [] c (ground arith))
