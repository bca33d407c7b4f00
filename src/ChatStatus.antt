-- ===== src/ChatStatus.antt =====
-- internal/chatstatus/status.go: which messages of a conversation are unread. `baseCall` and
-- `isNumeric` are written there once more; they are those of internal/chatlog.
pub mod Unread
pub mod Keys
pub mod Restart
use gomeshcom_client.Prelude.{
  ℕ, suc, Bool, true, false, not, ◌||◌, List, [], ◌∷◌, ◌++◌, map, Option, none, some, take, drop,
  if◌then◌else◌, ltb, ◌==◌,
}
use gomeshcom_client.Text.{Text, text_eq, to_upper, has_prefix, trim_prefix, index}
use gomeshcom_client.Map.{Map, lookup, insert, delete, has}
use gomeshcom_client.Saving.{Store, put}
use gomeshcom_client.Meshcom.Notice.{is_store_notice}
use gomeshcom_client.Chatlog.Ids.{dm_prefix, base_call, origin}

-- Times are nanoseconds since the zero time, which is 0.
pub record Entry : Type 0 where
  pub last_msg_received : ℕ
  pub last_read : ℕ
  pub unread_count : ℕ
  pub last_msg : Text

abbrev pub zero_entry : Entry
zero_entry = record { last_msg_received = 0; last_read = 0; unread_count = 0; last_msg = [] }

-- `entries[convID]`
unfoldable pub entry_at : Text → Map Entry → Entry
entry_at conv m = elim (lookup conv m) [ none ↦ zero_entry | some e ↦ e ]

-- `reads[convID]`
unfoldable pub read_at : Text → Map ℕ → ℕ
read_at conv reads = elim (lookup conv reads) [ none ↦ 0 | some t ↦ t ]

abbrev pub ChatStatus : Type 0
ChatStatus = Store (Map Entry)

-- The rows that `writeSQLite` leaves in `chat_reads`.
unfoldable pub rows_of : Map Entry → Map ℕ
rows_of [] = []
rows_of ((conv, e) ∷ m) =
    let rest = rows_of m in if e.last_read == 0 then rest else (conv, e.last_read) ∷ rest

-- `loadSQLite`
unfoldable pub load : Map ℕ → Map Entry
load [] = []
load ((conv, t) ∷ rows) = (conv, record zero_entry { last_read = t }) ∷ load rows

unfoldable pub new_status : Map ℕ → ChatStatus
new_status rows = record {
  current = load rows;
  dirty = false;
  in_flight = [];
  stored = some (load rows);
}

unfoldable pub mark_read : Text → ℕ → ChatStatus → ChatStatus
mark_read conv ts st =
    put
      (insert conv (record (entry_at conv st.current) { unread_count = 0; last_read = ts })
        st.current)
      st

unfoldable pub remove : Text → ChatStatus → ChatStatus
remove conv st = if has conv st.current then put (delete conv st.current) st else st

unfoldable pub snapshot_reads : Map Entry → Map ℕ
snapshot_reads [] = []
snapshot_reads ((conv, e) ∷ m) = (conv, e.last_read) ∷ snapshot_reads m

-- A row of `chats_public`, and of `chats_dm` once it has its key.
pub record Row : Type 0 where
  pub conv : Text
  pub received_at : ℕ
  pub msg : Text

pub record DmRow : Type 0 where
  pub conv : Text
  pub received_at : ℕ
  pub src : Text
  pub dst : Text
  pub msg : Text

-- The test on a message that counts as unread.
unfoldable pub is_unread : ℕ → ℕ → Bool
is_unread last_read received_at = last_read == 0 || ltb last_read received_at

unfoldable pub with_row : ℕ → Row → Entry → Entry
with_row last_read row e = record {
  last_read = last_read;
  last_msg_received = row.received_at;
  last_msg = row.msg;
  unread_count = if is_unread last_read row.received_at then suc e.unread_count else e.unread_count;
}

unfoldable pub apply_snapshot_record : Map ℕ → Row → Map Entry → Map Entry
apply_snapshot_record reads row snapshot =
    if is_store_notice row.msg
    then snapshot
    else insert row.conv (with_row (read_at row.conv reads) row (entry_at row.conv snapshot))
        snapshot

-- The loop of `applyPublicSnapshot`, over the rows in the order of the query.
unfoldable pub apply_rows : Map ℕ → List Row → Map Entry → Map Entry
apply_rows reads [] snapshot = snapshot
apply_rows reads (row ∷ rows) snapshot =
    apply_rows reads rows (apply_snapshot_record reads row snapshot)

-- `strings.NewReplacer("/", "_", "\\", "_", " ", "_")`
unfoldable pub replace_unsafe : ℕ → ℕ
replace_unsafe c = if c == b'/' || c == b'\\' || c == b' ' then b'_' else c

unfoldable pub sanitize : Text → Text
sanitize s = map replace_unsafe (to_upper s)

abbrev pub dm_key : Text → Text → Text
dm_key local peer = dm_prefix ++ (sanitize local ++ (b'_' ∷ sanitize peer))

-- `dmStatusKey` behind the search for the separator.
unfoldable pub dm_key_of : Text → Text → Text → Text → Text → Text
dm_key_of conv local_base peer src dst =
    if text_eq (base_call (origin src)) local_base
    then dm_key (origin src) peer
    else if text_eq (base_call (to_upper dst)) local_base
    then dm_key (to_upper dst) peer
    else conv

unfoldable pub dm_status_key : Text → Text → Text → Text
dm_status_key conv src dst =
    let rest = trim_prefix dm_prefix conv in
    if not (has_prefix dm_prefix conv) then [] else elim (index b'_' rest) [
      | none ↦ conv
      | some i ↦ dm_key_of conv (take i rest) (drop (suc i) rest) src dst
    ]

-- The loop of `applyDMSnapshot`.
unfoldable pub apply_dm_rows : Map ℕ → List DmRow → Map Entry → Map Entry
apply_dm_rows reads [] snapshot = snapshot
apply_dm_rows reads (row ∷ rows) snapshot =
    let key = dm_status_key row.conv row.src row.dst in
    apply_dm_rows reads rows (
      if text_eq key []
      then snapshot
      else apply_snapshot_record reads
          (record { conv = key; received_at = row.received_at; msg = row.msg }) snapshot)

-- The loop at the end of `snapshotSQLite`.
unfoldable pub apply_reads : Map ℕ → Map Entry → Map Entry
apply_reads [] snapshot = snapshot
apply_reads ((conv, t) ∷ reads) snapshot =
    apply_reads reads (insert conv (record (entry_at conv snapshot) { last_read = t }) snapshot)

-- `Snapshot`, on what the two queries return.
unfoldable pub snapshot : List Row → List DmRow → ChatStatus → Map Entry
snapshot public_rows dm_rows st =
    let reads = snapshot_reads st.current in
    apply_reads reads (apply_dm_rows reads dm_rows (apply_rows reads public_rows []))
