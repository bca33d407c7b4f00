-- ===== src/Station.antt =====
-- internal/station/identity.go: the callsign of the station.
pub mod Restart
use gomeshcom_client.Prelude.{[], Bool, true, false, not, Option, none, some, if◌then◌else◌}
use gomeshcom_client.Text.{Text, text_eq}
use gomeshcom_client.Callsign.{normalize, is_valid}
use gomeshcom_client.Saving.{Store, put}

-- `stored` is the row of `station_identity`, in text as it was written.
abbrev pub Identity : Type 0
Identity = Store Text

-- `loadSQLite` on the row, or on no row.
unfoldable pub load : Option Text → Text → Text
load none current = current
load (some persisted) current =
    if is_valid (normalize persisted) then normalize persisted else current

-- `NewSQLite`
unfoldable pub new_identity : Option Text → Text → Identity
new_identity row fallback = record {
  current = load row (normalize fallback);
  dirty = false;
  in_flight = [];
  stored = row;
}

-- `none` is the error of an invalid callsign.
unfoldable pub update : Text → Identity → Identity × Option Text
update cs id =
    if not (is_valid (normalize cs))
    then (id, none)
    else if text_eq id.current (normalize cs)
    then (id, some (normalize cs))
    else (put (normalize cs) id, some (normalize cs))
