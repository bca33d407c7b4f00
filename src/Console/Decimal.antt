-- ===== src/Console/Decimal.antt =====
-- Decimal numbers: `strconv.Atoi`, `strconv.Itoa`, and `stringID` of internal/outbox/outbox.go,
-- whose loop fills a buffer from its end.
pub mod RoundTrip
use gomeshcom_client.Prelude.{
  ℕ, zero, suc, ◌+◌, ◌-◌, ◌*◌, ◌/◌, ◌%◌, ◌^◌, Bool, true, false, ◌&&◌, List, [], ◌∷◌, Option, none,
  some, if◌then◌else◌, ltb, ◌==◌,
}
use gomeshcom_client.Text.{Text, codes}

-- The value of a run of digits behind the digits already read.
unfoldable pub decimal_from : ℕ → Text → ℕ
decimal_from acc [] = acc
decimal_from acc (c ∷ s) = decimal_from (acc * 10 + (c - b'0')) s

unfoldable pub decimal : Text → ℕ
decimal s = decimal_from 0 s

-- `for id > 0 { i--; buf[i] = digits[id%10]; id /= 10 }`. The fuel is the size of the buffer.
unfoldable pub digits_loop : ℕ → ℕ → Text → Text
digits_loop zero id buf = buf
digits_loop (suc room) id buf =
    let rest = digits_loop room (id / 10) ((b'0' + id % 10) ∷ buf) in if ltb 0 id then rest else buf

unfoldable pub string_id : ℕ → Text
string_id id = if id == 0 then codes "0" else digits_loop 20 id []
