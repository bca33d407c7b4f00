-- ===== src/Positions/Places.antt =====
-- internal/positions/store.go: which packets move a node.
use gomeshcom_client.Prelude.{
  ℤ, ℕ, Bool, true, List, [], ◌∷◌, Option, none, some, ◌≡◌, refl, arith, ◌∙◌, is_empty,
  if◌then◌else◌, Bool-cases, Option-cases, inl, inr,
}
use gomeshcom_client.Text.{Text, text_eq}
use gomeshcom_client.Text.Search.{text_eq_iff}
use gomeshcom_client.Map.{lookup, lookup-insert}
use gomeshcom_client.Meshcom.Outgoing.{split_source_path}
use gomeshcom_client.Positions.{
  Record, Position, Store, FreshnessMode, indirect, direct, apply_freshness, mark_dirty, set_record,
  touch, hop_mode, touch_via_chain, touch_path, touch_from_packet, fresh_record, carry_over,
  store_changed, update_path, update,
}

-- What a packet without coordinates leaves as it is.
pub record Place (F : Type 0) : Type 0 where
  pub latitude : F
  pub longitude : F
  pub altitude : ℤ
  pub hardware_id : Text
  pub first_seen : ℕ
  pub via : List Text

module _ {F : Type 0} where
  abbrev pub place_of : Record F → Place F
  place_of r = record {
    latitude = r.latitude;
    longitude = r.longitude;
    altitude = r.altitude;
    hardware_id = r.hardware_id;
    first_seen = r.first_seen;
    via = r.via;
  }

  abbrev pub place : Option (Record F) → Option (Place F)
  place none = none
  place (some r) = some (place_of r)

  abbrev pub place_at : Text → Store F → Option (Place F)
  place_at c s = place (lookup c s.records)

  place-apply_freshness :
      (mode : FreshnessMode) (t : ℕ) (rssi snr : Option ℤ) (r : Record F)
      → place_of (apply_freshness mode t rssi snr r) ≡ place_of r
  unfolding apply_freshness
  place-apply_freshness indirect t rssi snr r = refl
  place-apply_freshness direct t rssi snr r = refl

  place_at-set_record :
      (c callsign : Text) (r : Record F) (s : Store F)
      → place_at c (set_record callsign r s)
        ≡ (if text_eq callsign c then some (place_of r) else place_at c s)
  unfolding set_record mark_dirty
  place_at-set_record c callsign r s = ground (arith, lookup-insert callsign c r s.records)

  place_at-touch :
      (c : Text) (mode : FreshnessMode) (callsign : Text) (rssi snr : Option ℤ) (t : ℕ)
      (s : Store F)
      → place_at c (touch mode callsign rssi snr t s).0 ≡ place_at c s
  unfolding touch
  place_at-touch c mode callsign rssi snr t s = elim (Option-cases (lookup callsign s.records)) [
    | inl n ↦ rw (n, touch) refl
    | inr (r, e) ↦
        rw (e, touch)
          (ground (
            arith,
            place_at-set_record c callsign (apply_freshness mode t rssi snr r) s,
            place-apply_freshness mode t rssi snr r,
            text_eq_iff callsign c,
          ))
  ]

  place_at-touch_via_chain :
      (c : Text) (relays : List Text) (rssi snr : Option ℤ) (t : ℕ) (s : Store F)
      → place_at c (touch_via_chain relays rssi snr t s).0 ≡ place_at c s
  unfolding touch_via_chain
  place_at-touch_via_chain c [] rssi snr t s = refl
  place_at-touch_via_chain c (relay ∷ relays) rssi snr t s =
      place_at-touch_via_chain c relays rssi snr t (touch (hop_mode relays) relay rssi snr t s).0
      ∙ place_at-touch c (hop_mode relays) relay rssi snr t s

  -- A packet without coordinates creates no record and removes none, and changes neither the
  -- place of a node nor the time it was first seen.
  pub touch_keeps_place :
      (c src : Text) (rssi snr : Option ℤ) (t : ℕ) (s : Store F)
      → place_at c (touch_from_packet src rssi snr t s).0 ≡ place_at c s
  unfolding touch_from_packet touch_path
  touch_keeps_place c src rssi snr t s =
      let (callsign, via) = split_source_path src in
      ground (
        arith,
        place_at-touch c direct callsign rssi snr t s,
        place_at-touch c indirect callsign none none t s,
        place_at-touch_via_chain c via rssi snr t (touch indirect callsign none none t s).0,
      )

  -- The place in a position packet, first seen when the node was first seen.
  abbrev pub place_in : Position F → List Text → ℕ → Option (Place F) → Place F
  place_in p via t none = record {
    latitude = p.latitude;
    longitude = p.longitude;
    altitude = p.altitude;
    hardware_id = p.hardware_id;
    first_seen = t;
    via = via;
  }
  place_in p via t (some old) = record {
    latitude = p.latitude;
    longitude = p.longitude;
    altitude = p.altitude;
    hardware_id = p.hardware_id;
    first_seen = old.first_seen;
    via = via;
  }

  place-carry_over :
      (o : Option (Record F)) (p : Position F) (via : List Text) (t : ℕ)
      → place_of (carry_over o (fresh_record p via t)) ≡ place_in p via t (place o)
  unfolding carry_over fresh_record
  place-carry_over none p via t = refl
  place-carry_over (some r) p via t = refl

  module _ (deep_equal : Record F → Record F → Bool)
      (deep_equal_sound : (a b : Record F) → deep_equal a b ≡ true → a ≡ b) where
    place_at-store_changed :
        (c callsign : Text) (o : Option (Record F)) (r : Record F) (s : Store F)
        → place_at callsign s ≡ place o
        → place_at c (store_changed deep_equal callsign o r s).0
          ≡ (if text_eq callsign c then some (place_of r) else place_at c s)
    unfolding store_changed
    place_at-store_changed c callsign none r s h = place_at-set_record c callsign r s
    place_at-store_changed c callsign (some current) r s h =
        elim (Bool-cases (deep_equal current r)) [
          | inl e ↦ rw e (ground (arith, deep_equal_sound current r e, text_eq_iff callsign c))
          | inr n ↦ rw n (place_at-set_record c callsign r s)
        ]

    -- Where `reflect.DeepEqual` finds only equal records equal: a position packet with an origin
    -- moves the origin to the place in the packet, where the time it was first seen is kept
    -- once there is one, and it moves no other node; without an origin it changes nothing.
    pub update_place :
        (c : Text) (p : Position F) (t : ℕ) (s : Store F)
        → place_at c (update deep_equal p t s).0 ≡ (
            let (callsign, via) = split_source_path p.source in
            if is_empty callsign
            then place_at c s
            else if text_eq callsign c
            then some (place_in p via t (place_at c s))
            else place_at c s)
    unfolding update update_path
    update_place c p t s =
        let (callsign, via) = split_source_path p.source in
        let o = lookup callsign s.records in
        let r = carry_over o (fresh_record p via t) in
        let s' = (touch_via_chain via p.rssi p.snr t s).0 in
        ground (
          arith,
          place_at-store_changed c callsign o (apply_freshness direct t p.rssi p.snr r) s refl,
          place_at-store_changed c callsign o (apply_freshness indirect t none none r) s'
              (place_at-touch_via_chain callsign via p.rssi p.snr t s),
          place-apply_freshness direct t p.rssi p.snr r,
          place-apply_freshness indirect t none none r,
          place-carry_over o p via t,
          place_at-touch_via_chain c via p.rssi p.snr t s,
          text_eq_iff callsign c,
        )
