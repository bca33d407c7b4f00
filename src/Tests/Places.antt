-- ===== src/Tests/Places.antt =====
-- internal/positions at packets of two nodes, and internal/meshcom at source paths.
use gomeshcom_client.Prelude.{
  ℤ, pos, negsuc, ℕ, Bool, true, false, ◌&&◌, List, [], ◌∷◌, Option, none, some, ◌≡◌, refl, arith,
  ◌==◌,
}
use gomeshcom_client.Text.{
  Text, codes, text_eq, trim_left, trim_right, trim_space, split, push_head,
}
use gomeshcom_client.Text.Search.{text_eq_iff}
use gomeshcom_client.Map.{lookup, insert, has}
use gomeshcom_client.Meshcom.Outgoing.{relays, split_path, split_source_path}
use gomeshcom_client.Positions.{
  Record, Position, Store, load, apply_freshness, mark_dirty, set_record, touch, touch_via_chain,
  touch_path, touch_from_packet, fresh_record, carry_over, store_changed, update_path, update,
  read_record, marked_records, begin_save, write, mark_all, finish_save,
}
use gomeshcom_client.Positions.Saved

program : Unit {0}
unfolding push_head text_eq trim_left trim_right trim_space split relays split_path
    split_source_path lookup insert has load apply_freshness mark_dirty set_record touch
    touch_via_chain touch_path touch_from_packet fresh_record carry_over store_changed update_path
    update read_record marked_records begin_save write mark_all finish_save
program = tt

abbrev same_int : ℤ → ℤ → Bool
same_int (pos m) (pos n) = m == n
same_int (negsuc m) (negsuc n) = m == n
same_int _ _ = false

same_int_sound : (a b : ℤ) → same_int a b ≡ true → a ≡ b
same_int_sound (pos m) (pos n) h = ground arith
same_int_sound (negsuc m) (negsuc n) h = ground arith
same_int_sound (pos m) (negsuc n) h = absurd (ground arith)
same_int_sound (negsuc m) (pos n) h = absurd (ground arith)

abbrev same_time : Option ℕ → Option ℕ → Bool
same_time none none = true
same_time (some m) (some n) = m == n
same_time _ _ = false

same_time_sound : (a b : Option ℕ) → same_time a b ≡ true → a ≡ b
same_time_sound none none h = refl
same_time_sound (some m) (some n) h = ground arith
same_time_sound none (some n) h = absurd (ground arith)
same_time_sound (some m) none h = absurd (ground arith)

abbrev same_texts : List Text → List Text → Bool
same_texts [] [] = true
same_texts (s ∷ ss) (t ∷ ts) = text_eq s t && same_texts ss ts
same_texts _ _ = false

same_texts_sound : (a b : List Text) → same_texts a b ≡ true → a ≡ b
same_texts_sound [] [] h = refl
same_texts_sound (s ∷ ss) (t ∷ ts) h = ground (arith, text_eq_iff s t, same_texts_sound ss ts)
same_texts_sound [] (t ∷ ts) h = absurd (ground arith)
same_texts_sound (s ∷ ss) [] h = absurd (ground arith)

-- Coordinates are whole numbers here.
abbrev same_record : Record ℕ → Record ℕ → Bool
same_record a b =
    a.latitude == b.latitude
    && a.longitude == b.longitude
    && same_int a.altitude b.altitude
    && text_eq a.hardware_id b.hardware_id
    && a.first_seen == b.first_seen
    && a.last_seen == b.last_seen
    && same_time a.last_direct_seen b.last_direct_seen
    && same_int a.rssi b.rssi
    && same_int a.snr b.snr
    && same_texts a.via b.via

same_record_sound : (a b : Record ℕ) → same_record a b ≡ true → a ≡ b
same_record_sound a b h = ground (
  arith,
  same_int_sound a.altitude b.altitude,
  text_eq_iff a.hardware_id b.hardware_id,
  same_time_sound a.last_direct_seen b.last_direct_seen,
  same_int_sound a.rssi b.rssi,
  same_int_sound a.snr b.snr,
  same_texts_sound a.via b.via,
)

abbrev packet : Text → Position ℕ
packet source = record {
  source = source;
  latitude = 48;
  longitude = 16;
  altitude = pos 200;
  hardware_id = codes "3";
  rssi = some (negsuc 89);
  snr = none;
}

abbrev near : Text
near = codes "AA1AA-1"

abbrev far : Text
far = codes "BB2BB-2"

abbrev first : Store ℕ
first = (update same_record (packet near) 5 (load [])).0

abbrev second : Store ℕ
second = (update same_record (packet (codes "BB2BB-2,AA1AA-1")) 9 first).0

abbrev zero_record : Record ℕ
zero_record = fresh_record (packet []) [] 0

abbrev failed : Store ℕ
failed = finish_save false (begin_save zero_record second)

abbrev saved : Store ℕ
saved = finish_save true (begin_save zero_record failed)

saved-Reach : Saved.Reach same_record zero_record [] saved
unfolding program
saved-Reach =
    Saved.next
      (Saved.next
        (Saved.next
          (Saved.next
            (Saved.next (Saved.next Saved.start (Saved.Step.updates (packet near) 5))
              (Saved.Step.updates (packet (codes "BB2BB-2,AA1AA-1")) 9))
            (Saved.Step.begins refl))
          (Saved.Step.finishes false))
        (Saved.Step.begins refl))
      (Saved.Step.finishes true)

clean_is_stored_example : lookup far saved.nodes ≡ lookup far saved.records
unfolding program
clean_is_stored_example =
    Saved.clean_is_stored same_record zero_record [] saved saved-Reach refl refl far

-- The relay was heard directly when its packet was relayed, and the origin was not.
relayed_packet :
    (lookup near second.records
      ≡ some (record {
        latitude = 48;
        longitude = 16;
        altitude = pos 200;
        hardware_id = codes "3";
        first_seen = 5;
        last_seen = 9;
        last_direct_seen = some 9;
        rssi = negsuc 89;
        snr = pos 0;
        via = [];
      }))
    × (lookup far second.records
        ≡ some (record {
          latitude = 48;
          longitude = 16;
          altitude = pos 200;
          hardware_id = codes "3";
          first_seen = 9;
          last_seen = 9;
          last_direct_seen = none;
          rssi = pos 0;
          snr = pos 0;
          via = near ∷ [];
        }))
unfolding program
relayed_packet = (refl, refl)
