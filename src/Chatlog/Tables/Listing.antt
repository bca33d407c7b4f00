-- ===== src/Chatlog/Tables/Listing.antt =====
-- internal/chatlog/chatlog.go: `listSQLite`, at one conversation.
use gomeshcom_client.Prelude.{
  ℕ, suc, ◌+◌, ◌≡◌, refl, Bool, true, not, ◌&&◌, ◌||◌, List, [], ◌∷◌, arith, ltb, if◌then◌else◌,
}
use gomeshcom_client.Text.{Text, text_eq}
use gomeshcom_client.Text.Search.{text_eq_iff}
use gomeshcom_client.Map.{Map, lookup, insert, lookup-insert}
use gomeshcom_client.Meshcom.Notice.{is_store_notice}
use gomeshcom_client.Chatlog.Ids.{valid_conversation_id}
use gomeshcom_client.Chatlog.Tables.{
  Row, Conversation, zero_conversation, conversation_at, count_row, list_onto,
}

-- A row that counts for a conversation.
abbrev pub counts : Text → Row → Bool
counts c row = text_eq row.conversation c && not (is_store_notice row.entry.msg)

abbrev pub count_in : Text → List Row → ℕ
count_in c [] = 0
count_in c (row ∷ rows) = let rest = count_in c rows in if counts c row then suc rest else rest

abbrev pub later_of : ℕ → ℕ → ℕ
later_of a b = if ltb a b then b else a

-- The time of the last row of a conversation, or the zero time.
abbrev pub latest_in : Text → List Row → ℕ
latest_in c [] = 0
latest_in c (row ∷ rows) =
    let rest = latest_in c rows in
    if counts c row then later_of row.entry.received_at rest else rest

conversation_at-insert :
    (k c : Text) (v : Conversation) (m : Map Conversation)
    → conversation_at c (insert k v m) ≡ (if text_eq k c then v else conversation_at c m)
unfolding conversation_at
conversation_at-insert k c v m = ground (arith, lookup-insert k c v m)

list_onto-one :
    (c : Text) (row : Row) (m : Map Conversation)
    → valid_conversation_id c ≡ true
    → conversation_at c (
        if not (valid_conversation_id row.conversation) || is_store_notice row.entry.msg
        then m
        else insert row.conversation (count_row row (conversation_at row.conversation m)) m)
      ≡ (if counts c row then count_row row (conversation_at c m) else conversation_at c m)
list_onto-one c row m v = ground (
  arith,
  text_eq_iff row.conversation c,
  conversation_at-insert row.conversation c (count_row row (conversation_at row.conversation m)) m,
)

-- The map with one row more.
abbrev with_row : Row → Map Conversation → Map Conversation
with_row row m =
    if not (valid_conversation_id row.conversation) || is_store_notice row.entry.msg
    then m
    else insert row.conversation (count_row row (conversation_at row.conversation m)) m

list_onto-size :
    (c : Text) (rows : List Row) (m : Map Conversation)
    → valid_conversation_id c ≡ true
    → (conversation_at c (list_onto m rows)).size ≡ (conversation_at c m).size + count_in c rows
unfolding list_onto count_row
list_onto-size c [] m v = omega arith
list_onto-size c (row ∷ rows) m v =
    ground (arith, list_onto-one c row m v, list_onto-size c rows (with_row row m) v)

list_onto-last_seen :
    (c : Text) (rows : List Row) (m : Map Conversation)
    → valid_conversation_id c ≡ true
    → (conversation_at c (list_onto m rows)).last_seen
      ≡ later_of (conversation_at c m).last_seen (latest_in c rows)
unfolding list_onto count_row
list_onto-last_seen c [] m v = ground arith
list_onto-last_seen c (row ∷ rows) m v =
    ground (arith, list_onto-one c row m v, list_onto-last_seen c rows (with_row row m) v)

-- In the list of conversations, the size of one with a valid identifier is the number of its rows
-- that are no custody notices, and its time is that of the latest of these rows, in whatever order
-- the rows come.
pub list_onto-counts :
    (c : Text) (rows : List Row)
    → valid_conversation_id c ≡ true
    → ((conversation_at c (list_onto [] rows)).size ≡ count_in c rows)
      × ((conversation_at c (list_onto [] rows)).last_seen ≡ latest_in c rows)
list_onto-counts c rows v =
    let e : conversation_at c [] ≡ zero_conversation = unfold conversation_at lookup in refl in
    (
      ground (arith, e, list_onto-size c rows [] v),
      ground (arith, e, list_onto-last_seen c rows [] v),
    )
