-- ===== src/Meshcom/Notice.antt =====
-- internal/meshcom/sto_notice.go: store-and-forward custody notices. The offsets count bytes.
pub mod Layout
use gomeshcom_client.Prelude.{
  ℕ, ◌+◌, Bool, false, not, ◌&&◌, all, take, drop, length, if◌then◌else◌, ltb,
}
use gomeshcom_client.Text.{Text, codes, text_eq, is_digit, to_lower, contains}

abbrev pub store_notice_tag : Text
store_notice_tag = codes ":sto"

abbrev pub store_notice_tag_offset : ℕ
store_notice_tag_offset = 9

abbrev pub store_notice_sequence_len : ℕ
store_notice_sequence_len = 3

abbrev pub store_notice_sequence_from : ℕ
store_notice_sequence_from = store_notice_tag_offset + length store_notice_tag

abbrev pub store_notice_min_length : ℕ
store_notice_min_length = store_notice_sequence_from + store_notice_sequence_len

-- `msg[from:from+n]`
abbrev pub slice : ℕ → ℕ → Text → Text
slice from n msg = take n (drop from msg)

unfoldable pub is_store_notice : Text → Bool
is_store_notice msg =
    if ltb (length msg) store_notice_min_length
    then false
    else if not (text_eq (slice store_notice_tag_offset 4 msg) store_notice_tag)
    then false
    else if not (all is_digit (slice store_notice_sequence_from store_notice_sequence_len msg))
    then false
    else if contains (codes "{") msg
    then false
    else not (contains (codes ":ack") (to_lower msg))
      && not (contains (codes ":rej") (to_lower msg))
