-- ===== src/Meshcom/Utf8.antt =====
-- `utf8.ValidString` and `utf8.RuneCountInString`, on which internal/meshcom/packet.go rests.
use gomeshcom_client.Prelude.{
  ℕ, zero, suc, ◌+◌, ◌-◌, Bool, true, false, ◌&&◌, List, [], ◌∷◌, Option, none, some, if◌then◌else◌,
  ltb, ◌==◌,
}
use gomeshcom_client.Text.{Text, within}

-- The bytes that follow a first byte, each with its range.
unfoldable pub follow : List (ℕ × ℕ) → Text → Bool
follow [] s = true
follow (r ∷ rs) [] = false
follow (r ∷ rs) (c ∷ s) = within r.0 r.1 c && follow rs s

abbrev pub tail_range : ℕ × ℕ
tail_range = (0x80, 0xBF)

-- The width of the rune of at least two bytes at the front.
unfoldable pub wide_rune : ℕ → Text → Option ℕ
wide_rune a s =
    if within 0xC2 0xDF a && follow (tail_range ∷ []) s
    then some 2
    else if a == 0xE0 && follow ((0xA0, 0xBF) ∷ tail_range ∷ []) s
    then some 3
    else if (within 0xE1 0xEC a) && follow (tail_range ∷ tail_range ∷ []) s
    then some 3
    else if a == 0xED && follow ((0x80, 0x9F) ∷ tail_range ∷ []) s
    then some 3
    else if (within 0xEE 0xEF a) && follow (tail_range ∷ tail_range ∷ []) s
    then some 3
    else if a == 0xF0 && follow ((0x90, 0xBF) ∷ tail_range ∷ tail_range ∷ []) s
    then some 4
    else if within 0xF1 0xF3 a && follow (tail_range ∷ tail_range ∷ tail_range ∷ []) s
    then some 4
    else if a == 0xF4 && follow ((0x80, 0x8F) ∷ tail_range ∷ tail_range ∷ []) s
    then some 4
    else none

-- `none` at a byte that starts no rune: it then counts as one.
unfoldable pub rune_width : ℕ → Text → Option ℕ
rune_width a s = if ltb a 0x80 then some 1 else wide_rune a s

-- `skip` bytes are left of a rune that has been read.
unfoldable pub valid_from : ℕ → Text → Bool
valid_from skip [] = true
valid_from (suc k) (c ∷ s) = valid_from k s
valid_from zero (c ∷ s) = elim (rune_width c s) [ none ↦ false | some w ↦ valid_from (w - 1) s ]

unfoldable pub valid_string : Text → Bool
valid_string s = valid_from 0 s

unfoldable pub rune_count_from : ℕ → Text → ℕ
rune_count_from skip [] = 0
rune_count_from (suc k) (c ∷ s) = rune_count_from k s
rune_count_from zero (c ∷ s) =
    1 + rune_count_from (elim (rune_width c s) [ none ↦ 0 | some w ↦ w - 1 ]) s

unfoldable pub rune_count : Text → ℕ
rune_count s = rune_count_from 0 s
