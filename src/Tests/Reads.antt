-- ===== src/Tests/Reads.antt =====
-- internal/chatstatus at two conversations.
use gomeshcom_client.Prelude.{List, ◌≡◌, ◌∷◌, ◌++◌, refl, true, [], arith}
use gomeshcom_client.Text.{
  Text, codes, upper, to_upper, lower, to_lower, before, last_index, index, text_eq, cut_prefix,
  has_prefix, trim_prefix, trim_suffix, contains,
}
use gomeshcom_client.Map.{lookup, insert, delete, has}
use gomeshcom_client.Callsign.Grammar.{IsCallsign, one}
use gomeshcom_client.Saving.{put, begin_save, take_out, finish_save}
use gomeshcom_client.Meshcom.Notice.{is_store_notice}
use gomeshcom_client.Meshcom.Utf8.{rune_width}
use gomeshcom_client.Chatlog.Ids.{
  is_numeric, is_dm, sanitize_byte, sanitize_from, base_call, filename, origin, is_foreign,
  interlocutor, filename_for_msg, conversation_id, status_key,
}
use gomeshcom_client.Chatlog.Ids
use gomeshcom_client.ChatStatus.{
  Entry, entry_at, read_at, ChatStatus, rows_of, load, new_status, mark_read, remove,
  snapshot_reads, Row, DmRow, is_unread, with_row, apply_snapshot_record, apply_rows,
  replace_unsafe, dm_key_of, dm_status_key, apply_dm_rows, apply_reads, snapshot,
}
use gomeshcom_client.ChatStatus
use gomeshcom_client.ChatStatus.Unread.{keyed, unread_in, last_in, snapshot-unread}
use gomeshcom_client.ChatStatus.Restart

program : Unit {0}
unfolding upper to_upper lower to_lower before last_index index text_eq cut_prefix has_prefix
    trim_prefix trim_suffix contains lookup insert delete has put begin_save take_out finish_save
    is_store_notice is_numeric is_dm sanitize_byte sanitize_from rune_width Ids.sanitize base_call
    filename origin is_foreign interlocutor filename_for_msg conversation_id status_key entry_at
    read_at rows_of load new_status mark_read remove snapshot_reads is_unread with_row
    apply_snapshot_record apply_rows replace_unsafe ChatStatus.sanitize dm_key_of dm_status_key
    apply_dm_rows apply_reads snapshot
program = tt

abbrev me : Text
me = codes "QQ1XX-7"

me-IsCallsign : IsCallsign me
me-IsCallsign = record {
  base = codes "QQ1XX";
  ssid = codes "-7";
  splits = refl;
  alnum = refl;
  at_least = omega arith;
  at_most = omega arith;
  suffix = one b'7' refl;
}

abbrev peer : Text
peer = codes "zz9zz-3"

abbrev channel : Text
channel = codes "P_26"

abbrev public_rows : List Row
public_rows =
    record { conv = channel; received_at = 10; msg = codes "one" }
    ∷ record { conv = channel; received_at = 20; msg = codes "two" }
    ∷ record { conv = channel; received_at = 30; msg = codes "QQ1XX-7  :sto123" }
    ∷ []

abbrev dm_rows : List DmRow
dm_rows =
    record {
      conv = codes "DM_QQ1XX_ZZ9ZZ-3";
      received_at = 40;
      src = peer;
      dst = me;
      msg = codes "hi";
    }
    ∷ []

abbrev fresh : ChatStatus
fresh = new_status ((channel, 10) ∷ [])

snapshot-unread_example :
    ((entry_at channel (snapshot public_rows dm_rows fresh)).unread_count
      ≡ unread_in channel (entry_at channel fresh.current).last_read (public_rows ++ keyed dm_rows))
    × ((entry_at channel (snapshot public_rows dm_rows fresh)).last_msg
        ≡ last_in channel [] (public_rows ++ keyed dm_rows))
snapshot-unread_example = snapshot-unread channel public_rows dm_rows fresh

-- The second message is unread, and the notice does not count.
one_unread :
    ((entry_at channel (snapshot public_rows dm_rows fresh)).unread_count ≡ 1)
    × ((entry_at channel (snapshot public_rows dm_rows fresh)).last_msg ≡ codes "two")
    × ((entry_at (codes "DM_QQ1XX-7_ZZ9ZZ-3") (snapshot public_rows dm_rows fresh)).unread_count
        ≡ 1)
unfolding program
one_unread = (refl, refl, refl)

abbrev saved : ChatStatus
saved = finish_save 0 true (begin_save (mark_read channel 30 fresh))

saved-Reach : Restart.Reach ((channel, 10) ∷ []) saved
unfolding program
saved-Reach =
    Restart.next
      (Restart.next (Restart.next Restart.start (Restart.Step.reads channel 30))
        Restart.Step.begins)
      (Restart.Step.finishes true)

restart_counts_same_example :
    (entry_at channel (
      snapshot public_rows dm_rows
        (new_status (rows_of (Restart.or_empty saved.stored))))).unread_count
    ≡ (entry_at channel (snapshot public_rows dm_rows saved)).unread_count
unfolding program
restart_counts_same_example =
    Restart.restart_counts_same ((channel, 10) ∷ []) saved (refl, tt) saved-Reach refl refl channel
      public_rows dm_rows
