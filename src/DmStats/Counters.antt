-- ===== src/DmStats/Counters.antt =====
-- internal/dmstats/store.go: counted messages, and a save that fails.
use gomeshcom_client.Prelude.{◌≤◌, ◌≡◌, refl, Bool, true, false, if◌then◌else◌, arith, ◌||◌}
use gomeshcom_client.Text.{Text, text_eq}
use gomeshcom_client.Text.Search.{text_eq_iff}
use gomeshcom_client.Map.{Map, insert, lookup-insert}
use gomeshcom_client.Chatlog.Ids.{base_call}
use gomeshcom_client.DmStats.{
  Entry, Store, full_call, callsign_pair, get_or_create, count, one_sent, one_ack, record_sent,
  record_ack, begin_save, finish_save,
}

get_or_create-insert :
    (j k : Text) (e : Entry) (m : Map Entry)
    → get_or_create j (insert k e m) ≡ (if text_eq k j then e else get_or_create j m)
unfolding get_or_create
get_or_create-insert j k e m = ground (arith, lookup-insert k j e m)

-- The callsign is one of the two whose entries the destination counts for.
abbrev pub is_counted : Text → Text → Bool
is_counted destination k =
    text_eq (full_call destination) k || text_eq (base_call (full_call destination)) k

count-get_or_create :
    (f : Entry → Entry) (destination k : Text) (s : Store)
    → get_or_create k (count f destination s).entries ≡ (
        if is_counted destination k
        then f (get_or_create k s.entries)
        else get_or_create k s.entries)
unfolding count callsign_pair
count-get_or_create f destination k s =
    let full = full_call destination in
    let base = base_call full in
    let first = insert full (f (get_or_create full s.entries)) s.entries in
    ground (
      arith,
      text_eq_iff base full,
      text_eq_iff full k,
      text_eq_iff base k,
      text_eq_iff full base,
      get_or_create-insert k full (f (get_or_create full s.entries)) s.entries,
      get_or_create-insert base full (f (get_or_create full s.entries)) s.entries,
      get_or_create-insert k base (f (get_or_create base first)) first,
    )

-- A message that was sent, and an acknowledgement, count once for the destination and once for its
-- base call, where that is another, and for no other callsign.
pub record_sent-get_or_create :
    (destination k : Text) (s : Store)
    → (get_or_create k (record_sent destination s).entries ≡ (
        if is_counted destination k
        then one_sent (get_or_create k s.entries)
        else get_or_create k s.entries))
      × (get_or_create k (record_ack destination s).entries ≡ (
          if is_counted destination k
          then one_ack (get_or_create k s.entries)
          else get_or_create k s.entries))
unfolding record_sent record_ack
record_sent-get_or_create destination k s =
    (count-get_or_create one_sent destination k s, count-get_or_create one_ack destination k s)

-- No callsign has more messages than its base call.
pub record IsDominated (s : Store) : Type 0 where
  pub sent :
      (k : Text) → (get_or_create k s.entries).sent ≤ (get_or_create (base_call k) s.entries).sent
  pub acks :
      (k : Text) → (get_or_create k s.entries).ack ≤ (get_or_create (base_call k) s.entries).ack

counted_base :
    (destination k : Text)
    → base_call (base_call (full_call destination)) ≡ base_call (full_call destination)
    → is_counted destination k ≡ true
    → is_counted destination (base_call k) ≡ true
counted_base destination k once h =
    let full = full_call destination in
    let base = base_call full in
    ground (arith, text_eq_iff full k, text_eq_iff base k, text_eq_iff base (base_call k))

-- As long as destinations have at most one SSID, the counters of a base call are at least those of
-- each of its devices.
pub count-IsDominated :
    (destination : Text) (s : Store)
    → base_call (base_call (full_call destination)) ≡ base_call (full_call destination)
    → IsDominated s
    → IsDominated (record_sent destination s) × IsDominated (record_ack destination s)
count-IsDominated destination s once d = (
  record {
    sent = λ k. ground (arith, now k, now (base_call k), d.sent k, counted_base destination k once);
    acks = λ k. ground (arith, now k, now (base_call k), d.acks k, counted_base destination k once);
  },
  record {
    sent = λ k. ground (arith, now k, now (base_call k), d.sent k, counted_base destination k once);
    acks = λ k. ground (arith, now k, now (base_call k), d.acks k, counted_base destination k once);
  },
)
  where
    now :
        (k : Text)
        → (get_or_create k (record_sent destination s).entries ≡ (
            if is_counted destination k
            then one_sent (get_or_create k s.entries)
            else get_or_create k s.entries))
          × (get_or_create k (record_ack destination s).entries ≡ (
              if is_counted destination k
              then one_ack (get_or_create k s.entries)
              else get_or_create k s.entries))
    now k = record_sent-get_or_create destination k s

-- A save whose write fails leaves the counters unmarked and unsaved: with no further message the
-- next save writes nothing, and the table keeps what it held.
pub failed_save_is_lost :
    (destination : Text) (s : Store)
    → let s' = finish_save false (begin_save (record_sent destination s)) in
      (s'.dirty ≡ false)
      × (s'.entries ≡ (record_sent destination s).entries)
      × (s'.stored ≡ s.stored)
      × (begin_save s' ≡ s')
      × (finish_save true (begin_save s') ≡ s')
unfolding finish_save begin_save record_sent count
failed_save_is_lost destination s = (refl, refl, refl, refl, refl)
