-- ===== src/Positions/Tracked.antt =====
-- internal/positions/store.go: what the marks on nodes say, through packets and saves.
use gomeshcom_client.Prelude.{
  ℤ, ℕ, Bool, true, false, List, [], ◌∷◌, Option, none, some, ◌≡◌, refl, arith, is_empty,
  Bool-cases, Option-cases, inl, inr,
}
use gomeshcom_client.Text.{Text}
use gomeshcom_client.Map.{Map, lookup, lookup-insert, has}
use gomeshcom_client.Meshcom.Outgoing.{split_source_path}
use gomeshcom_client.Positions.{
  Record, Position, Store, FreshnessMode, indirect, direct, apply_freshness, mark_dirty, set_record,
  touch, hop_mode, touch_via_chain, touch_path, touch_from_packet, fresh_record, carry_over,
  store_changed, update_path, update, marked_records, begin_save, finish_save,
}
use gomeshcom_client.Positions.Marks.{
  landed, lookup-write, lookup-marked_records, has-mark_all, read_known,
}

module _ {F : Type 0} where
  -- A node that is not marked is stored, once the save under way has succeeded; marks stand on
  -- nodes that exist, and a save writes nodes that exist.
  pub record IsTracked (s : Store F) : Type 0 where
    pub stored :
        (c : Text)
        → has c s.dirty_nodes ≡ false
        → lookup c (landed s.in_flight s.nodes) ≡ lookup c s.records
    pub flagged : (c : Text) → s.dirty ≡ false → has c s.dirty_nodes ≡ false
    pub known : (c : Text) → has c s.dirty_nodes ≡ true → has c s.records ≡ true
    pub flown :
        (m : Map (Record F))
        → s.in_flight ≡ some m
        → (c : Text) → has c m ≡ true
        → has c s.records ≡ true

  pub set_record-IsTracked :
      (callsign : Text) (r : Record F) {s : Store F}
      → IsTracked s
      → IsTracked (set_record callsign r s)
  unfolding set_record mark_dirty has
  set_record-IsTracked callsign r {s} k = record {
    stored = λ c h. ground (
      arith,
      lookup-insert callsign c tt s.dirty_nodes,
      lookup-insert callsign c r s.records,
      k.stored c,
    );
    flagged = λ c h. absurd (ground arith);
    known = λ c h. ground (
      arith,
      lookup-insert callsign c tt s.dirty_nodes,
      lookup-insert callsign c r s.records,
      k.known c,
    );
    flown = λ m e c h. ground (arith, lookup-insert callsign c r s.records, k.flown m e c);
  }

  pub touch-IsTracked :
      (mode : FreshnessMode) (callsign : Text) (rssi snr : Option ℤ) (t : ℕ) {s : Store F}
      → IsTracked s
      → IsTracked (touch mode callsign rssi snr t s).0
  unfolding touch
  touch-IsTracked mode callsign rssi snr t {s} k = elim (Option-cases (lookup callsign s.records)) [
    | inl n ↦ rw (n, touch) k
    | inr (r, e) ↦
        rw (e, touch) (set_record-IsTracked callsign (apply_freshness mode t rssi snr r) k)
  ]

  pub touch_via_chain-IsTracked :
      (relays : List Text) (rssi snr : Option ℤ) (t : ℕ) {s : Store F}
      → IsTracked s
      → IsTracked (touch_via_chain relays rssi snr t s).0
  unfolding touch_via_chain
  touch_via_chain-IsTracked [] rssi snr t k = k
  touch_via_chain-IsTracked (relay ∷ relays) rssi snr t k =
      touch_via_chain-IsTracked relays rssi snr t
        (touch-IsTracked (hop_mode relays) relay rssi snr t k)

  pub touch_from_packet-IsTracked :
      (src : Text) (rssi snr : Option ℤ) (t : ℕ) {s : Store F}
      → IsTracked s
      → IsTracked (touch_from_packet src rssi snr t s).0
  unfolding touch_from_packet touch_path
  touch_from_packet-IsTracked src rssi snr t {s} k =
      let (callsign, via) = split_source_path src in
      elim (Bool-cases (is_empty callsign)) [
        | inl e ↦ rw e k
        | inr n ↦ rw n (elim (Bool-cases (is_empty via)) [
          | inl e ↦ rw e (touch-IsTracked direct callsign rssi snr t k)
          | inr m ↦ rw m (
              touch_via_chain-IsTracked via rssi snr t
                (touch-IsTracked indirect callsign none none t k))
        ])
      ]

  pub store_changed-IsTracked :
      (deep_equal : Record F → Record F → Bool) (callsign : Text) (o : Option (Record F))
      (r : Record F) {s : Store F}
      → IsTracked s
      → IsTracked (store_changed deep_equal callsign o r s).0
  unfolding store_changed
  store_changed-IsTracked deep_equal callsign none r k = set_record-IsTracked callsign r k
  store_changed-IsTracked deep_equal callsign (some current) r k =
      elim (Bool-cases (deep_equal current r)) [
        | inl e ↦ rw e k
        | inr n ↦ rw n (set_record-IsTracked callsign r k)
      ]

  pub update-IsTracked :
      (deep_equal : Record F → Record F → Bool) (p : Position F) (t : ℕ) {s : Store F}
      → IsTracked s
      → IsTracked (update deep_equal p t s).0
  unfolding update update_path
  update-IsTracked deep_equal p t {s} k =
      let (callsign, via) = split_source_path p.source in
      let o = lookup callsign s.records in
      let r = carry_over o (fresh_record p via t) in
      elim (Bool-cases (is_empty callsign)) [
        | inl e ↦ rw e k
        | inr n ↦ rw n (elim (Bool-cases (is_empty via)) [
          | inl e ↦ rw e (
              store_changed-IsTracked deep_equal callsign o
                (apply_freshness direct t p.rssi p.snr r) k)
          | inr m ↦ rw m (
              store_changed-IsTracked deep_equal callsign o (apply_freshness indirect t none none r)
                (touch_via_chain-IsTracked via p.rssi p.snr t k))
        ])
      ]

  pub begin_save-IsTracked :
      (zero : Record F) {s : Store F}
      → IsTracked s
      → s.in_flight ≡ none
      → IsTracked (begin_save zero s)
  unfolding begin_save has
  begin_save-IsTracked zero {s} k n = elim (Bool-cases s.dirty) [
    | inr d ↦ rw d (record {
      stored = k.stored;
      flagged = λ c h. k.flagged c d;
      known = k.known;
      flown = k.flown;
    })
    | inl d ↦ rw d (record {
      stored = λ c h. ground (
        arith,
        lookup-write c (marked_records zero s.dirty_nodes s.records) s.nodes,
        lookup-marked_records zero c s.dirty_nodes s.records,
        k.stored c,
        k.known c,
        read_known zero c s.records,
      );
      flagged = λ c h. unfold has lookup in refl;
      known = λ c h. absurd (unfold has lookup in ground arith);
      flown = λ m e c h.
          ground (arith, lookup-marked_records zero c s.dirty_nodes s.records, k.known c);
    })
  ]

  pub finish_save-IsTracked :
      (written : Bool) {s : Store F} → IsTracked s → IsTracked (finish_save written s)
  unfolding finish_save has
  finish_save-IsTracked written {s} k = elim (Option-cases s.in_flight) [
    | inl n ↦ rw (n, finish_save) k
    | inr (m, e) ↦
        rw (e, finish_save)
          (elim (Bool-cases written) [
            | inl w ↦ rw w (record {
              stored = λ c h. ground (arith, k.stored c);
              flagged = k.flagged;
              known = k.known;
              flown = λ m' e' c h. absurd (ground arith);
            })
            | inr w ↦ rw w (record {
              stored = λ c h.
                  ground
                    (arith, k.stored c, has-mark_all c m s.dirty_nodes, lookup-write c m s.nodes);
              flagged = λ c h. absurd (ground arith);
              known =
                  λ c h. ground (arith, has-mark_all c m s.dirty_nodes, k.known c, k.flown m e c);
              flown = λ m' e' c h. absurd (ground arith);
            })
          ])
  ]
