-- ===== src/ChatStatus/Unread.antt =====
-- internal/chatstatus/status.go: the entries of a snapshot, from the rows of the two tables.
use gomeshcom_client.Prelude.{
  ℕ, suc, ◌+◌, ◌<◌, ◌≡◌, refl, sym, ap, ◌∙◌, Bool, true, not, ◌&&◌, ◌||◌, List, [], ◌∷◌, ◌++◌,
  arith, all, leb, if◌then◌else◌, Bool-cases, inl, inr,
}
use gomeshcom_client.Text.{Text, text_eq}
use gomeshcom_client.Text.Search.{text_eq_iff}
use gomeshcom_client.Map.{Map, lookup, insert, lookup-insert}
use gomeshcom_client.Meshcom.Notice.{is_store_notice}
use gomeshcom_client.Saving.{put}
use gomeshcom_client.ChatStatus.{
  Entry, zero_entry, entry_at, read_at, ChatStatus, mark_read, snapshot_reads, Row, DmRow,
  is_unread, with_row, apply_snapshot_record, apply_rows, dm_status_key, apply_dm_rows, apply_reads,
  snapshot,
}

-- The rows of direct messages, each with its key; a row without one is left out.
abbrev pub keyed : List DmRow → List Row
keyed [] = []
keyed (row ∷ rows) =
    let key = dm_status_key row.conv row.src row.dst in
    let rest = keyed rows in
    if text_eq key []
    then rest
    else record { conv = key; received_at = row.received_at; msg = row.msg } ∷ rest

-- A row that belongs to a conversation, and is no custody notice.
abbrev pub belongs : Text → Row → Bool
belongs c row = not (is_store_notice row.msg) && text_eq row.conv c

-- How many rows of a conversation are newer than the time it was last read.
abbrev pub unread_in : Text → ℕ → List Row → ℕ
unread_in c last_read [] = 0
unread_in c last_read (row ∷ rows) =
    let rest = unread_in c last_read rows in
    if belongs c row && is_unread last_read row.received_at then suc rest else rest

-- The text of the last row of a conversation.
abbrev pub last_in : Text → Text → List Row → Text
last_in c msg [] = msg
last_in c msg (row ∷ rows) = last_in c (if belongs c row then row.msg else msg) rows

pub entry_at-insert :
    (k c : Text) (e : Entry) (m : Map Entry)
    → entry_at c (insert k e m) ≡ (if text_eq k c then e else entry_at c m)
unfolding entry_at
entry_at-insert k c e m = ground (arith, lookup-insert k c e m)

pub read_at-snapshot_reads :
    (c : Text) (m : Map Entry) → read_at c (snapshot_reads m) ≡ (entry_at c m).last_read
unfolding read_at entry_at snapshot_reads lookup
read_at-snapshot_reads c [] = refl
read_at-snapshot_reads c ((k, e) ∷ m) = ground (arith, read_at-snapshot_reads c m)

apply_dm_rows-keyed :
    (reads : Map ℕ) (rows : List DmRow) (m : Map Entry)
    → apply_dm_rows reads rows m ≡ apply_rows reads (keyed rows) m
unfolding apply_dm_rows apply_rows
apply_dm_rows-keyed reads [] m = refl
apply_dm_rows-keyed reads (row ∷ rows) m =
    elim (Bool-cases (text_eq (dm_status_key row.conv row.src row.dst) [])) [
      | inl e ↦ rw e (apply_dm_rows-keyed reads rows m)
      | inr n ↦ rw n (apply_dm_rows-keyed reads rows _)
    ]

apply_rows-append :
    (reads : Map ℕ) (xs ys : List Row) (m : Map Entry)
    → apply_rows reads (xs ++ ys) m ≡ apply_rows reads ys (apply_rows reads xs m)
unfolding apply_rows
apply_rows-append reads [] ys m = refl
apply_rows-append reads (x ∷ xs) ys m =
    apply_rows-append reads xs ys (apply_snapshot_record reads x m)

-- One row, at every conversation.
entry_at-apply_snapshot_record :
    (c : Text) (reads : Map ℕ) (row : Row) (m : Map Entry)
    → entry_at c (apply_snapshot_record reads row m)
      ≡ (if belongs c row then with_row (read_at c reads) row (entry_at c m) else entry_at c m)
unfolding apply_snapshot_record
entry_at-apply_snapshot_record c reads row m = ground (
  arith,
  text_eq_iff row.conv c,
  entry_at-insert row.conv c (with_row (read_at row.conv reads) row (entry_at row.conv m)) m,
)

apply_rows-unread :
    (c : Text) (reads : Map ℕ) (rows : List Row) (m : Map Entry)
    → (entry_at c (apply_rows reads rows m)).unread_count
      ≡ (entry_at c m).unread_count + unread_in c (read_at c reads) rows
unfolding apply_rows with_row
apply_rows-unread c reads [] m = omega arith
apply_rows-unread c reads (row ∷ rows) m = ground (
  arith,
  apply_rows-unread c reads rows (apply_snapshot_record reads row m),
  entry_at-apply_snapshot_record c reads row m,
)

apply_rows-last :
    (c : Text) (reads : Map ℕ) (rows : List Row) (m : Map Entry)
    → (entry_at c (apply_rows reads rows m)).last_msg ≡ last_in c (entry_at c m).last_msg rows
unfolding apply_rows with_row
apply_rows-last c reads [] m = refl
apply_rows-last c reads (row ∷ rows) m =
    apply_rows-last c reads rows (apply_snapshot_record reads row m)
    ∙ ap (λ t. last_in c t rows) (ground (arith, entry_at-apply_snapshot_record c reads row m))

apply_reads-counts :
    (c : Text) (reads : Map ℕ) (m : Map Entry)
    → ((entry_at c (apply_reads reads m)).unread_count ≡ (entry_at c m).unread_count)
      × ((entry_at c (apply_reads reads m)).last_msg ≡ (entry_at c m).last_msg)
unfolding apply_reads
apply_reads-counts c [] m = (refl, refl)
apply_reads-counts c ((k, t) ∷ reads) m =
    let e : Entry = record (entry_at k m) { last_read = t } in
    let (u, l) = apply_reads-counts c reads (insert k e m) in
    (
      u ∙ ground (arith, entry_at-insert k c e m, text_eq_iff k c),
      l ∙ ground (arith, entry_at-insert k c e m, text_eq_iff k c),
    )

entry_at-nil : (c : Text) → entry_at c [] ≡ zero_entry
unfolding entry_at lookup
entry_at-nil c = refl

-- In a snapshot, the number of unread messages of a conversation is the number of its rows that
-- are no custody notices and are newer than the time at which it was last read, or all of them
-- if it never was; its text is that of its last row that is no notice.
pub snapshot-unread :
    (c : Text) (public_rows : List Row) (dm_rows : List DmRow) (st : ChatStatus)
    → ((entry_at c (snapshot public_rows dm_rows st)).unread_count
        ≡ unread_in c (entry_at c st.current).last_read (public_rows ++ keyed dm_rows))
      × ((entry_at c (snapshot public_rows dm_rows st)).last_msg
          ≡ last_in c [] (public_rows ++ keyed dm_rows))
unfolding snapshot
snapshot-unread c public_rows dm_rows st =
    let reads = snapshot_reads st.current in
    let rows = public_rows ++ keyed dm_rows in
    let e : apply_dm_rows reads dm_rows (apply_rows reads public_rows [])
        ≡ apply_rows reads rows [] =
      apply_dm_rows-keyed reads dm_rows (apply_rows reads public_rows [])
      ∙ sym (apply_rows-append reads public_rows (keyed dm_rows) []) in
    let (u, l) = apply_reads-counts c reads (apply_rows reads rows []) in
    rw e (
      ground (
        arith,
        u,
        read_at-snapshot_reads c st.current,
        entry_at-nil c,
        apply_rows-unread c reads rows [],
      ),
      l ∙ apply_rows-last c reads rows [] ∙ ap (λ d. last_in c d.last_msg rows) (entry_at-nil c),
    )

unread_in_old :
    (c : Text) (t : ℕ) (rows : List Row)
    → 0 < t
    → all (λ row. not (text_eq row.conv c) || leb row.received_at t) rows ≡ true
    → unread_in c t rows ≡ 0
unfolding is_unread
unread_in_old c t [] p h = refl
unread_in_old c t (row ∷ rows) p h = ground (arith, unread_in_old c t rows p)

-- Marking a conversation as read, at a time that is not the zero time and not before its last
-- row, leaves none of it unread, and leaves the number of every other conversation.
pub mark_read_clears :
    (k : Text) (t : ℕ) (public_rows : List Row) (dm_rows : List DmRow) (st : ChatStatus)
    → 0 < t
    → all (λ row. not (text_eq row.conv k) || leb row.received_at t) (public_rows ++ keyed dm_rows)
      ≡ true
    → (c : Text)
    → (entry_at c (snapshot public_rows dm_rows (mark_read k t st))).unread_count
      ≡ (if text_eq k c then 0 else (entry_at c (snapshot public_rows dm_rows st)).unread_count)
unfolding mark_read put
mark_read_clears k t public_rows dm_rows st p h c =
    let marked : Entry = record (entry_at k st.current) { unread_count = 0; last_read = t } in
    ground (
      arith,
      (snapshot-unread c public_rows dm_rows (mark_read k t st)).0,
      (snapshot-unread c public_rows dm_rows st).0,
      entry_at-insert k c marked st.current,
      text_eq_iff k c,
      unread_in_old k t (public_rows ++ keyed dm_rows) p h,
    )
