-- ===== src/Stats/Keys.antt =====
-- internal/stats/store.go and distance.go: the keys of the counters, and their parts in the tables.
pub mod RoundTrip
use mathlib.Core.Option
use gomeshcom_client.Prelude.{
  ℕ, suc, ◌+◌, ◌-◌, ◌*◌, ◌/◌, ◌^◌, ℤ, pos, negsuc, Bool, true, false, not, ◌&&◌, ◌||◌, List, [],
  ◌∷◌, ◌++◌, Option, none, some, if◌then◌else◌, ltb, leb, ◌==◌, length, drop,
}
use gomeshcom_client.Text.{
  Text, codes, text_eq, to_upper, has_prefix, trim_prefix, trim_suffix, split,
}
use gomeshcom_client.Chatlog.Ids.{is_numeric}
use gomeshcom_client.Console.Decimal.{decimal, string_id}

abbrev pub broadcast : Text
broadcast = codes "broadcast"

abbrev pub channel_prefix : Text
channel_prefix = codes "ch:"

abbrev pub dm_prefix : Text
dm_prefix = codes "dm:"

-- `channelParts`: the kind and the target.
unfoldable pub channel_parts : Text → Text × Text
channel_parts key =
    if text_eq key broadcast
    then (broadcast, codes "*")
    else if has_prefix channel_prefix key
    then (codes "channel", trim_prefix channel_prefix key)
    else if has_prefix dm_prefix key
    then (codes "dm", trim_prefix dm_prefix key)
    else (codes "channel", key)

unfoldable pub channel_key : Text → Text → Text
channel_key kind target =
    if text_eq kind broadcast
    then broadcast
    else if text_eq kind (codes "dm")
    then dm_prefix ++ target
    else channel_prefix ++ target

-- internal/stats/collector.go
unfoldable pub public_key : Text → Text
public_key dst =
    if text_eq dst [] || text_eq dst (codes "*") then broadcast else channel_prefix ++ dst

unfoldable pub dm_key : Text → Text
dm_key callsign = if text_eq callsign [] then [] else dm_prefix ++ to_upper callsign

-- `DistanceBucketLabel`, on whole kilometres.
unfoldable pub distance_bucket_label : ℕ → Text
distance_bucket_label km =
    if leb 100 km
    then codes "100+"
    else let lo = km / 5 * 5 in string_id lo ++ (b'-' ∷ string_id (lo + 5))

-- `strconv.Atoi`: digits behind a sign, in the range of an int64.
unfoldable pub digits_value : ℕ → Text → Option ℕ
digits_value limit s = if is_numeric s && leb (decimal s) limit then some (decimal s) else none

unfoldable pub negated : ℕ → ℤ
negated n = if n == 0 then pos 0 else negsuc (n - 1)

unfoldable pub atoi : Text → Option ℤ
atoi [] = none
atoi (c ∷ s) =
    if c == b'-'
    then Option.map negated (digits_value (2 ^ 63) s)
    else if c == b'+'
    then Option.map pos (digits_value (2 ^ 63 - 1) s)
    else Option.map pos (digits_value (2 ^ 63 - 1) (c ∷ s))

-- `start + int(distanceBinSizeKm)`
unfoldable pub plus_bin : ℤ → ℤ
plus_bin (pos n) = pos (n + 5)
plus_bin (negsuc n) = if ltb n 5 then pos (4 - n) else negsuc (n - 5)

unfoldable pub ends_in_plus : Text → Bool
ends_in_plus s = ltb 0 (length s) && text_eq (drop (length s - 1) s) (codes "+")

unfoldable pub both : Option ℤ → Option ℤ → Option (ℤ × ℤ)
both (some a) (some b) = some (a, b)
both _ _ = none

-- `parts` of a label that has two.
unfoldable pub range_of : List Text → Option (ℤ × ℤ)
range_of (a ∷ b ∷ []) = both (atoi a) (atoi b)
range_of _ = none

-- `none` is an error.
unfoldable pub distance_range : Text → Option (ℤ × ℤ)
distance_range label =
    if ends_in_plus label
    then Option.map (λ start. (start, plus_bin start)) (atoi (trim_suffix (codes "+") label))
    else range_of (split b'-' label)

-- `%d`
unfoldable pub print_int : ℤ → Text
print_int (pos n) = string_id n
print_int (negsuc n) = b'-' ∷ string_id (suc n)

unfoldable pub at_least_max : ℤ → Bool
at_least_max (pos n) = leb 100 n
at_least_max (negsuc n) = false

unfoldable pub distance_label : ℤ → ℤ → Text
distance_label start end =
    if at_least_max start
    then print_int start ++ codes "+"
    else print_int start ++ (b'-' ∷ print_int end)
