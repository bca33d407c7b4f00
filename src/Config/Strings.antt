-- ===== src/Config/Strings.antt =====
-- internal/config/toml.go: the strings of the file, against the basic strings of TOML.
use gomeshcom_client.Prelude.{
  ℕ, ◌≡◌, refl, Bool, true, false, ◌&&◌, ◌||◌, [], ◌∷◌, ◌++◌, Option, none, some, if◌then◌else◌,
  leb, ◌==◌, subst, sym, ap, ◌∙◌, Bool-cases, inl, inr, ==_iff, append_assoc,
}
use gomeshcom_client.Text.{Text}

-- `strings.ReplaceAll` of one byte.
unfoldable pub replace_all : ℕ → Text → Text → Text
replace_all b new [] = []
replace_all b new (c ∷ s) =
    let rest = replace_all b new s in if c == b then new ++ rest else c ∷ rest

-- `tomlStr`
unfoldable pub toml_str : Text → Text
toml_str s =
    b'"'
    ∷ (replace_all b'"' (b'\\' ∷ b'"' ∷ []) (replace_all b'\\' (b'\\' ∷ b'\\' ∷ []) s)
        ++ (b'"' ∷ []))

-- What stands below is the grammar of a basic string in TOML 1.0, on the bytes of a file in UTF-8.
abbrev pub is_control : ℕ → Bool
is_control c = leb c 8 || (leb 10 c && leb c 31) || c == 127

-- The byte of an escape of one letter.
unfoldable pub unescaped : ℕ → Option ℕ
unescaped c =
    if c == b'"' || c == b'\\'
    then some c
    else if c == b'b'
    then some 8
    else if c == b't'
    then some 9
    else if c == b'n'
    then some 10
    else if c == b'f'
    then some 12
    else if c == b'r'
    then some 13
    else none

-- A byte before what is read.
abbrev pub before : Option ℕ → Option (Text × Text) → Option (Text × Text)
before (some c) (some (s, rest)) = some (c ∷ s, rest)
before _ _ = none

-- Behind the opening quotation mark, or behind a backslash: the string, and what follows it. An escape
-- is one letter; those of Unicode are left out, which `tomlStr` does not write.
unfoldable pub read_body : (is_escape : Bool) → Text → Option (Text × Text)
read_body is_escape [] = none
read_body true (c ∷ s) = before (unescaped c) (read_body false s)
read_body false (c ∷ s) =
    let escaped = read_body true s in
    let plain = read_body false s in
    if c == b'"'
    then some ([], s)
    else if c == b'\\'
    then escaped
    else if is_control c
    then none
    else before (some c) plain

unfoldable pub read_basic_string : Text → Option (Text × Text)
read_basic_string [] = none
read_basic_string (c ∷ s) = if c == b'"' then read_body false s else none

abbrev pub has_control : Text → Bool
has_control [] = false
has_control (c ∷ s) = is_control c || has_control s

before_if :
    (c : ℕ) (s rest : Text) (refused : Bool)
    → before (some c) (if refused then none else some (s, rest))
      ≡ (if refused then none else some (c ∷ s, rest))
before_if c s rest true = refl
before_if c s rest false = refl

abbrev escaped : Text → Text
escaped s = replace_all b'"' (b'\\' ∷ b'"' ∷ []) (replace_all b'\\' (b'\\' ∷ b'\\' ∷ []) s)

read_body-escaped :
    (s rest : Text)
    → read_body false (escaped s ++ (b'"' ∷ rest))
      ≡ (if has_control s then none else some (s, rest))
unfolding replace_all read_body unescaped
read_body-escaped [] rest = refl
read_body-escaped (c ∷ s) rest = elim (Bool-cases (c == b'\\')) [
  | inl e ↦
      subst
        (λ c.
          read_body false (escaped (c ∷ s) ++ (b'"' ∷ rest))
          ≡ (if has_control (c ∷ s) then none else some (c ∷ s, rest)))
        (sym ((==_iff c b'\\').0 e))
        (ap (before (some b'\\')) (read_body-escaped s rest)
          ∙ before_if b'\\' s rest (has_control s))
  | inr e ↦ elim (Bool-cases (c == b'"')) [
    | inl f ↦
        subst
          (λ c.
            read_body false (escaped (c ∷ s) ++ (b'"' ∷ rest))
            ≡ (if has_control (c ∷ s) then none else some (c ∷ s, rest)))
          (sym ((==_iff c b'"').0 f))
          (ap (before (some b'"')) (read_body-escaped s rest)
            ∙ before_if b'"' s rest (has_control s))
    | inr f ↦ elim (Bool-cases (is_control c)) [
      | inl g ↦ rw (e, f) (rw (f, e, g) refl)
      | inr g ↦
          rw (e, f)
            (rw (f, e, g)
              (ap (before (some c)) (read_body-escaped s rest)
                ∙ before_if c s rest (has_control s)))
    ]
  ]
]

-- A string that the file holds is read back as it was if it has no control character but a tab; any
-- other is no string of TOML, so that the file cannot be read.
pub read_basic_string-toml_str :
    (s rest : Text)
    → read_basic_string (toml_str s ++ rest) ≡ (if has_control s then none else some (s, rest))
unfolding read_basic_string toml_str
read_basic_string-toml_str s rest =
    ap (read_body false) (append_assoc (escaped s) (b'"' ∷ []) rest) ∙ read_body-escaped s rest
