-- ===== src/Text.antt =====
-- Go strings as the lists of their bytes, and the functions of `strings` that the program calls.
pub mod Search
pub mod Trim
use Prim.Native.Char.{code}
use mathlib.Core.Option
use gomeshcom_client.Prelude.{
  ℕ, suc, ◌+◌, ◌-◌, String, Bool, true, false, ◌&&◌, ◌||◌, List, [], ◌∷◌, map, Option, none, some,
  leb, ◌==◌, if◌then◌else◌, take, drop, length, is_empty,
}

abbrev pub Text : Type 0
Text = List ℕ

-- The bytes of an ASCII literal.
abbrev pub codes : String → Text
codes String.[] = []
codes (String.◌∷◌ c s) = code c ∷ codes s

unfoldable pub text_eq : Text → Text → Bool
text_eq [] [] = true
text_eq (a ∷ s) (b ∷ t) = a == b && text_eq s t
text_eq _ _ = false

abbrev pub within : ℕ → ℕ → ℕ → Bool
within lo hi c = leb lo c && leb c hi

abbrev pub is_digit : ℕ → Bool
is_digit c = within b'0' b'9' c

-- `asciiSpace` of package strings: \t \n \v \f \r and the blank.
abbrev pub is_space : ℕ → Bool
is_space c = within 9 13 c || c == 32

unfoldable pub upper : ℕ → ℕ
upper c = if within b'a' b'z' c then c - 32 else c

unfoldable pub lower : ℕ → ℕ
lower c = if within b'A' b'Z' c then c + 32 else c

-- `strings.ToUpper` and `strings.ToLower` on ASCII.
unfoldable pub to_upper : Text → Text
to_upper = map upper

unfoldable pub to_lower : Text → Text
to_lower = map lower

unfoldable pub trim_left : Text → Text
trim_left [] = []
trim_left (c ∷ s) = if is_space c then trim_left s else c ∷ s

unfoldable pub trim_right : Text → Text
trim_right [] = []
trim_right (c ∷ s) = let rest = trim_right s in if is_space c && is_empty rest then [] else c ∷ rest

-- `strings.TrimSpace`.
unfoldable pub trim_space : Text → Text
trim_space s = trim_right (trim_left s)

-- `strings.CutPrefix`: what follows the prefix.
unfoldable pub cut_prefix : Text → Text → Option Text
cut_prefix [] s = some s
cut_prefix (p ∷ ps) [] = none
cut_prefix (p ∷ ps) (c ∷ s) = if p == c then cut_prefix ps s else none

unfoldable pub has_prefix : Text → Text → Bool
has_prefix p s = elim (cut_prefix p s) [ none ↦ false | some _ ↦ true ]

unfoldable pub trim_prefix : Text → Text → Text
trim_prefix p s = elim (cut_prefix p s) [ none ↦ s | some t ↦ t ]

-- `strings.TrimSuffix`.
unfoldable pub trim_suffix : Text → Text → Text
trim_suffix p s =
    let n = length s - length p in
    if leb (length p) (length s) && text_eq (drop n s) p then take n s else s

-- `strings.Contains`.
unfoldable pub contains : Text → Text → Bool
contains p [] = is_empty p
contains p (c ∷ s) = has_prefix p (c ∷ s) || contains p s

-- `strings.Index` and `strings.LastIndex` for one byte.
unfoldable pub index : ℕ → Text → Option ℕ
index b [] = none
index b (c ∷ s) = let rest = index b s in if c == b then some 0 else Option.map suc rest

unfoldable pub last_index : ℕ → Text → Option ℕ
last_index b [] = none
last_index b (c ∷ s) = elim (last_index b s) [
  | some i ↦ some (suc i)
  | none ↦ if c == b then some 0 else none
]

-- Puts a byte in front of the first part.
unfoldable pub push_head : ℕ → List Text → List Text
push_head c [] = []
push_head c (part ∷ parts) = (c ∷ part) ∷ parts

-- `strings.Split` at one byte.
unfoldable pub split : ℕ → Text → List Text
split b [] = [] ∷ []
split b (c ∷ s) = if c == b then [] ∷ split b s else push_head c (split b s)

-- `strings.SplitN(s, b, 2)[0]`: what stands before the first separator.
unfoldable pub before : ℕ → Text → Text
before b [] = []
before b (c ∷ s) = let rest = before b s in if c == b then [] else c ∷ rest
