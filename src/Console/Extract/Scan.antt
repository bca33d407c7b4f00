-- ===== src/Console/Extract/Scan.antt =====
-- internal/consolecodec/decoder.go: `matchingObjectEnd` against the grammar of nested objects.
use gomeshcom_client.Prelude.{
  ℕ, suc, ◌+◌, ◌≡◌, ◌≢◌, refl, ap, ◌∙◌, true, false, [], ◌∷◌, ◌++◌, some, arith, length,
  length-append, take, drop-append, append_assoc,
}
use gomeshcom_client.Text.{Text}
use gomeshcom_client.Text.Search.{lacks, index-append}
use gomeshcom_client.Console.Extract.{
  ScanState, close_brace, scan_step, scan, matching_object_end, payload, extract_object,
}

-- The bytes of a string literal behind its opening quote, without the closing one.
pub data Chars : Text → Type 0 where
  done : Chars []
  plain : (c : ℕ) {s : Text} → c ≢ b'"' → c ≢ b'\\' → Chars s → Chars (c ∷ s)
  escape : (c : ℕ) {s : Text} → Chars s → Chars (b'\\' ∷ c ∷ s)

-- What stands between the braces of an object: other bytes, string literals and nested objects.
pub data Items : Text → Type 0 where
  done : Items []
  byte : (c : ℕ) {s : Text} → c ≢ b'"' → c ≢ b'{' → c ≢ b'}' → Items s → Items (c ∷ s)
  string : {q s : Text} → Chars q → Items s → Items (b'"' ∷ (q ++ (b'"' ∷ s)))
  object : {a s : Text} → Items a → Items s → Items (b'{' ∷ (a ++ (b'}' ∷ s)))

abbrev at_depth : ℕ → ScanState
at_depth d = record { depth = d; in_string = false; escaped = false }

abbrev quoted : ℕ → ScanState
quoted d = record { depth = d; in_string = true; escaped = false }

scan-at : {i j : ℕ} (st : ScanState) (t : Text) → i ≡ j → scan i st t ≡ scan j st t
scan-at st t e = ap (λ n. scan n st t) e

scan-Chars :
    {q : Text} (i d : ℕ) (t : Text)
    → Chars q
    → scan i (quoted d) (q ++ (b'"' ∷ t)) ≡ scan (i + length q + 1) (at_depth d) t
unfolding scan scan_step
scan-Chars i d t done = scan-at (at_depth d) t (omega arith)
scan-Chars i d t (plain c {s} n m q) = ground (
  arith,
  scan-Chars (suc i) d t q,
  scan-at {i = suc i + length s + 1} {j = i + suc (length s) + 1} (at_depth d) t (omega arith),
)
scan-Chars i d t (escape c {s} q) =
    scan-Chars (suc (suc i)) d t q ∙ scan-at (at_depth d) t (omega arith)

-- At any depth below an open brace, the scan passes over well-formed items.
scan-Items :
    {a : Text} (i d : ℕ) (t : Text)
    → Items a
    → scan i (at_depth (suc d)) (a ++ t) ≡ scan (i + length a) (at_depth (suc d)) t
unfolding scan scan_step close_brace
scan-Items i d t done = scan-at (at_depth (suc d)) t (omega arith)
scan-Items i d t (byte c {s} n m k r) = ground (
  arith,
  scan-Items (suc i) d t r,
  scan-at {i = suc i + length s} {j = i + suc (length s)} (at_depth (suc d)) t (omega arith),
)
scan-Items i d t (string {q} {s} h r) = rw append_assoc (
    scan-Chars (suc i) (suc d) (s ++ t) h
    ∙ scan-Items (suc i + length q + 1) d t r
    ∙ scan-at (at_depth (suc d)) t (omega (arith, length-append q (b'"' ∷ s))))
scan-Items i d t (object {a} {s} h r) = rw append_assoc (
    scan-Items (suc i) (suc d) (b'}' ∷ (s ++ t)) h
    ∙ scan-Items (suc (suc i + length a)) d t r
    ∙ scan-at (at_depth (suc d)) t (omega (arith, length-append a (b'}' ∷ s))))

-- An object of the grammar ends where the scan says, whatever follows it: quotes, escapes and
-- nested braces inside do not end it early.
pub matching_object_end-Items :
    {a : Text} (t : Text)
    → Items a
    → matching_object_end (b'{' ∷ (a ++ (b'}' ∷ t))) ≡ some (length a + 2)
unfolding matching_object_end scan scan_step close_brace
matching_object_end-Items {a} t h = scan-Items 1 0 (b'}' ∷ t) h ∙ ap some (omega arith)

abbrev pub braces : Text → Text
braces a = b'{' ∷ (a ++ (b'}' ∷ []))

take-suc-append :
    (a : Text) (c : ℕ) (t : Text) → take (suc (length a)) (a ++ (c ∷ t)) ≡ a ++ (c ∷ [])
take-suc-append [] c t = refl
take-suc-append (b ∷ a) c t = ap (◌∷◌ b) (take-suc-append a c t)

take-braces : (a t : Text) → take (length a + 2) (b'{' ∷ (a ++ (b'}' ∷ t))) ≡ braces a
take-braces a t =
    let e : length a + 2 ≡ suc (suc (length a)) = omega arith in
    rw e (ap (◌∷◌ b'{') (take-suc-append a b'}' t))

-- The payload of a record body is its first object, whole, whatever follows it.
pub extract_object-Items :
    {a : Text} (junk t : Text)
    → lacks b'{' junk ≡ true
    → Items a
    → extract_object (junk ++ (b'{' ∷ (a ++ (b'}' ∷ t)))) ≡ payload (braces a)
unfolding extract_object
extract_object-Items {a} junk t l h = ground (
  arith,
  index-append b'{' junk (a ++ (b'}' ∷ t)) l,
  drop-append junk (b'{' ∷ (a ++ (b'}' ∷ t))),
  matching_object_end-Items t h,
  take-braces a t,
)
