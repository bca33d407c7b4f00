-- ===== src/Positions.antt =====
-- internal/positions/store.go: where the nodes of the mesh are, and when they were heard.
pub mod Places
pub mod Marks
pub mod Tracked
pub mod Saved
use gomeshcom_client.Prelude.{
  ℕ, ℤ, pos, Bool, true, false, ◌||◌, List, [], ◌∷◌, Option, none, some, is_empty, if◌then◌else◌,
}
use gomeshcom_client.Text.{Text}
use gomeshcom_client.Map.{Map, lookup, insert}
use gomeshcom_client.Meshcom.Outgoing.{split_source_path}

-- `F` stands for `float64`; times are nanoseconds, and `none` is a nil pointer.
pub record Record (F : Type 0) : Type 0 where
  pub latitude : F
  pub longitude : F
  pub altitude : ℤ
  pub hardware_id : Text
  pub first_seen : ℕ
  pub last_seen : ℕ
  pub last_direct_seen : Option ℕ
  pub rssi : ℤ
  pub snr : ℤ
  pub via : List Text

-- `meshcom.Position`, in the fields that the store reads.
pub record Position (F : Type 0) : Type 0 where
  pub source : Text
  pub latitude : F
  pub longitude : F
  pub altitude : ℤ
  pub hardware_id : Text
  pub rssi : Option ℤ
  pub snr : Option ℤ

-- `in_flight` is what a save is writing; `nodes` is the table of the database.
pub record Store (F : Type 0) : Type 0 where
  pub records : Map (Record F)
  pub dirty_nodes : Map (Unit {0})
  pub dirty : Bool
  pub in_flight : Option (Map (Record F))
  pub nodes : Map (Record F)

pub data FreshnessMode : Type 0 where
  indirect direct : FreshnessMode

abbrev pub or_else : Option ℤ → ℤ → ℤ
or_else none old = old
or_else (some new) old = new

abbrev pub hop_mode : List Text → FreshnessMode
hop_mode [] = direct
hop_mode (relay ∷ relays) = indirect

module _ {F : Type 0} where
  -- `Load`
  unfoldable pub load : Map (Record F) → Store F
  load nodes = record {
    records = nodes;
    dirty_nodes = [];
    dirty = false;
    in_flight = none;
    nodes = nodes;
  }

  unfoldable pub apply_freshness : FreshnessMode → ℕ → Option ℤ → Option ℤ → Record F → Record F
  apply_freshness indirect seen_at rssi snr r = record r { last_seen = seen_at }
  apply_freshness direct seen_at rssi snr r = record r {
    last_seen = seen_at;
    last_direct_seen = some seen_at;
    rssi = or_else rssi r.rssi;
    snr = or_else snr r.snr;
  }

  unfoldable pub mark_dirty : Text → Store F → Store F
  mark_dirty callsign s = record s { dirty_nodes = insert callsign tt s.dirty_nodes; dirty = true }

  unfoldable pub set_record : Text → Record F → Store F → Store F
  set_record callsign r s = mark_dirty callsign (record s { records = insert callsign r s.records })

  -- A record that exists is made fresh; the flag says whether there was one.
  unfoldable pub touch : FreshnessMode → Text → Option ℤ → Option ℤ → ℕ → Store F → Store F × Bool
  touch mode callsign rssi snr seen_at s = elim (lookup callsign s.records) [
    | none ↦ (s, false)
    | some r ↦ (set_record callsign (apply_freshness mode seen_at rssi snr r) s, true)
  ]

  -- The loop runs over the relays; the last of them has been heard directly.
  unfoldable pub touch_via_chain : List Text → Option ℤ → Option ℤ → ℕ → Store F → Store F × Bool
  touch_via_chain [] rssi snr seen_at s = (s, false)
  touch_via_chain (relay ∷ relays) rssi snr seen_at s =
      let here = touch (hop_mode relays) relay rssi snr seen_at s in
      let rest = touch_via_chain relays rssi snr seen_at here.0 in (rest.0, here.1 || rest.1)

  -- `TouchFromPacket` behind the splitting of the source.
  unfoldable pub touch_path : Text → List Text → Option ℤ → Option ℤ → ℕ → Store F → Store F × Bool
  touch_path callsign via rssi snr seen_at s =
      if is_empty via
      then touch direct callsign rssi snr seen_at s
      else let origin = touch indirect callsign none none seen_at s in
        let chain = touch_via_chain via rssi snr seen_at origin.0 in (chain.0, chain.1 || origin.1)

  unfoldable pub touch_from_packet : Text → Option ℤ → Option ℤ → ℕ → Store F → Store F × Bool
  touch_from_packet src rssi snr seen_at s =
      let (callsign, via) = split_source_path src in
      if is_empty callsign then (s, false) else touch_path callsign via rssi snr seen_at s

  unfoldable pub fresh_record : Position F → List Text → ℕ → Record F
  fresh_record p via seen_at = record {
    latitude = p.latitude;
    longitude = p.longitude;
    altitude = p.altitude;
    hardware_id = p.hardware_id;
    first_seen = seen_at;
    last_seen = seen_at;
    last_direct_seen = none;
    rssi = pos 0;
    snr = pos 0;
    via = via;
  }

  -- What a record that exists hands on to the new one.
  unfoldable pub carry_over : Option (Record F) → Record F → Record F
  carry_over none r = r
  carry_over (some current) r = record r {
    first_seen = current.first_seen;
    last_direct_seen = current.last_direct_seen;
    rssi = current.rssi;
    snr = current.snr;
  }

  -- `reflect.DeepEqual` is an argument.
  unfoldable pub store_changed :
      (Record F → Record F → Bool) → Text → Option (Record F) → Record F → Store F → Store F × Bool
  store_changed deep_equal callsign none r s = (set_record callsign r s, true)
  store_changed deep_equal callsign (some current) r s =
      if deep_equal current r then (s, false) else (set_record callsign r s, true)

  -- `Update` behind the splitting of the source.
  unfoldable pub update_path :
      (Record F → Record F → Bool) → Text → List Text → Position F → ℕ → Store F → Store F × Bool
  update_path deep_equal callsign via p seen_at s =
      let current = lookup callsign s.records in
      let r = carry_over current (fresh_record p via seen_at) in
      if is_empty via
      then store_changed deep_equal callsign current (apply_freshness direct seen_at p.rssi p.snr r)
          s
      else store_changed deep_equal callsign current (apply_freshness indirect seen_at none none r)
          (touch_via_chain via p.rssi p.snr seen_at s).0

  unfoldable pub update : (Record F → Record F → Bool) → Position F → ℕ → Store F → Store F × Bool
  update deep_equal p seen_at s =
      let (callsign, via) = split_source_path p.source in
      if is_empty callsign then (s, false) else update_path deep_equal callsign via p seen_at s

  -- `records[callsign]`; `zero` is the zero value that a missing key reads as.
  unfoldable pub read_record : Record F → Text → Map (Record F) → Record F
  read_record zero callsign m = elim (lookup callsign m) [ none ↦ zero | some r ↦ r ]

  -- The records of the nodes that are marked.
  unfoldable pub marked_records : Record F → Map (Unit {0}) → Map (Record F) → Map (Record F)
  marked_records zero [] m = []
  marked_records zero ((callsign, u) ∷ marks) m =
      insert callsign (read_record zero callsign m) (marked_records zero marks m)

  -- The first critical section of `SaveIfDirty`.
  unfoldable pub begin_save : Record F → Store F → Store F
  begin_save zero s =
      if s.dirty
      then record s {
        in_flight = some (marked_records zero s.dirty_nodes s.records);
        dirty = false;
        dirty_nodes = [];
      }
      else s

  -- One upsert for each record; the order does not matter, since no key stands twice.
  unfoldable pub write : Map (Record F) → Map (Record F) → Map (Record F)
  write [] nodes = nodes
  write ((callsign, r) ∷ m) nodes = insert callsign r (write m nodes)

  unfoldable pub mark_all : Map (Record F) → Map (Unit {0}) → Map (Unit {0})
  mark_all [] marks = marks
  mark_all ((callsign, r) ∷ m) marks = insert callsign tt (mark_all m marks)

  -- The write, and the second critical section; the flag says whether the write succeeded.
  unfoldable pub finish_save : Bool → Store F → Store F
  finish_save written s = elim s.in_flight [
    | none ↦ s
    | some m ↦
        if written
        then record s { nodes = write m s.nodes; in_flight = none }
        else record s { dirty = true; dirty_nodes = mark_all m s.dirty_nodes; in_flight = none }
  ]
