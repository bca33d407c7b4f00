-- ===== src/Netconsole/Auth/Lines.antt =====
-- internal/netconsole/auth.go: the lines that `readBoundedLine` reads.
use gomeshcom_client.Prelude.{
  all-append, ℕ, ◌+◌, ◌<◌, ◌≤◌, ◌≡◌, refl, true, not, [], ◌∷◌, ◌++◌, arith, all, append_assoc,
  append-nil, length, length-append, ◌==◌, ◌∙◌, ap, sym,
}
use gomeshcom_client.Text.{Text}
use gomeshcom_client.Netconsole.Auth.{
  ConsoleError, line, strip_return, read_onto, read_bounded_line,
}

strip_return-append : (s : Text) → strip_return (s ++ (b'\r' ∷ [])) ≡ s
unfolding strip_return
strip_return-append [] = refl
strip_return-append (c ∷ []) = refl
strip_return-append (c ∷ d ∷ s) = ap (◌∷◌ c) (strip_return-append (d ∷ s))

read_onto-line :
    (max_bytes : ℕ) (ending : ConsoleError) (acc s rest : Text)
    → all (λ c. not (c == b'\n')) s ≡ true
    → length acc + length s < max_bytes
    → read_onto max_bytes ending acc (s ++ (b'\n' ∷ rest)) ≡ line (strip_return (acc ++ s)) rest
unfolding read_onto
read_onto-line max_bytes ending acc [] rest l h = ground (arith, append-nil acc)
read_onto-line max_bytes ending acc (c ∷ s) rest l h = ground (
  arith,
  read_onto-line max_bytes ending (acc ++ (c ∷ [])) s rest,
  append_assoc acc (c ∷ []) s,
  length-append acc (c ∷ []),
)

-- A line that ends with "\r\n", holds no other "\n" and is with both ends within the limit is read
-- as it was written, and what follows it is left to read.
pub read_bounded_line-line :
    (max_bytes : ℕ) (ending : ConsoleError) (s rest : Text)
    → all (λ c. not (c == b'\n')) s ≡ true
    → length s + 2 ≤ max_bytes
    → read_bounded_line max_bytes ending (s ++ (b'\r' ∷ b'\n' ∷ rest)) ≡ line s rest
unfolding read_bounded_line
read_bounded_line-line max_bytes ending s rest l h =
    let lacks : all (λ c. not (c == b'\n')) (s ++ (b'\r' ∷ [])) ≡ true =
      rw (all-append (λ c. not (c == b'\n')) s (b'\r' ∷ []), l) refl in
    let short : 0 + length (s ++ (b'\r' ∷ [])) < max_bytes =
      omega (arith, length-append s (b'\r' ∷ [])) in
    ap (read_bounded_line max_bytes ending) (sym (append_assoc s (b'\r' ∷ []) (b'\n' ∷ rest)))
    ∙ read_onto-line max_bytes ending [] (s ++ (b'\r' ∷ [])) rest lacks short
    ∙ ap (λ t. line t rest) (strip_return-append s)

length-strip_return : (s : Text) → length (strip_return s) ≤ length s
unfolding strip_return
length-strip_return [] = omega arith
length-strip_return (c ∷ s) = ground (arith, length-strip_return s)

read_onto-bounded :
    (max_bytes : ℕ) (ending : ConsoleError) (acc input s rest : Text)
    → read_onto max_bytes ending acc input ≡ line s rest
    → length s < max_bytes
unfolding read_onto
read_onto-bounded max_bytes ending acc [] s rest h = cc
read_onto-bounded max_bytes ending acc (c ∷ input) s rest h = ground (
  arith,
  read_onto-bounded max_bytes ending (acc ++ (c ∷ [])) input s rest,
  length-strip_return acc,
)
