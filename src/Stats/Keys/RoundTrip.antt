-- ===== src/Stats/Keys/RoundTrip.antt =====
-- internal/stats/store.go: the keys that the collector counts under are read back as they were.
use gomeshcom_client.Prelude.{
  ℕ, zero, suc, ◌+◌, ◌*◌, ◌/◌, ◌<◌, ◌≡◌, refl, Bool, true, false, ◌&&◌, ◌||◌, [], ◌∷◌, ◌++◌, Option,
  none, some, arith, leb, Bool-cases, Option-cases, inl, inr, subst, ◌==◌, ==_iff,
}
use gomeshcom_client.Text.{
  Text, codes, text_eq, has_prefix, trim_prefix, cut_prefix, trim_suffix, split, push_head,
}
use gomeshcom_client.Text.Search.{text_eq_iff}
use gomeshcom_client.Chatlog.Ids.{is_numeric}
use gomeshcom_client.Console.Decimal.{decimal, decimal_from, string_id, digits_loop}
use gomeshcom_client.Stats.Keys.{
  channel_parts, channel_key, public_key, dm_key, distance_bucket_label, distance_range,
  distance_label, atoi, digits_value, negated, plus_bin, ends_in_plus, both, range_of, print_int,
  at_least_max,
}

-- A key behind the two columns of its row.
abbrev pub stored_key : Text → Text
stored_key key = let (kind, target) = channel_parts key in channel_key kind target

-- The keys that the collector makes of a destination and of a callsign come back from the table as
-- they were.
pub stored_key-id :
    (dst : Text) (c : ℕ) (callsign : Text)
    → (stored_key (public_key dst) ≡ public_key dst)
      × (stored_key (dm_key (c ∷ callsign)) ≡ dm_key (c ∷ callsign))
unfolding channel_parts channel_key public_key dm_key text_eq has_prefix trim_prefix cut_prefix
stored_key-id dst c callsign = (
  elim (Bool-cases (text_eq dst [] || text_eq dst (codes "*"))) [
    | inl e ↦ rw e refl
    | inr n ↦ rw n refl
  ],
  refl,
)

-- A label behind the two columns of its row.
abbrev pub stored_label : Text → Option Text
stored_label label = elim (distance_range label) [
  | none ↦ none
  | some (start, end) ↦ some (distance_label start end)
]

-- The label of a bin.
abbrev bin_label : ℕ → Text
bin_label k = string_id (k * 5) ++ (b'-' ∷ string_id (k * 5 + 5))

abbrev comes_back : Text → Bool
comes_back label = elim (stored_label label) [ none ↦ false | some l ↦ text_eq l label ]

abbrev all_below : ℕ → (ℕ → Bool) → Bool
all_below zero p = true
all_below (suc n) p = p n && all_below n p

all_below-at : (n : ℕ) (p : ℕ → Bool) (k : ℕ) → all_below n p ≡ true → k < n → p k ≡ true
all_below-at zero p k h l = ground arith
all_below-at (suc n) p k h l = elim (Bool-cases (k == n)) [
  | inl e ↦
      let same : n ≡ k = ground (arith, ==_iff k n) in
      subst (λ i. p i ≡ true) same (ground (arith, h))
  | inr d ↦ all_below-at n p k (ground (arith, h)) (ground (arith, ==_iff k n))
]

bins_come_back : all_below 20 (λ k. comes_back (bin_label k)) ≡ true
unfolding distance_range distance_label atoi digits_value negated plus_bin ends_in_plus both
    range_of print_int at_least_max string_id digits_loop decimal decimal_from is_numeric text_eq
    trim_suffix split push_head
bins_come_back = refl

far_comes_back : comes_back (codes "100+") ≡ true
unfolding distance_range distance_label atoi digits_value negated plus_bin ends_in_plus both
    range_of print_int at_least_max string_id digits_loop decimal decimal_from is_numeric text_eq
    trim_suffix split push_head
far_comes_back = refl

comes_back-eq : (label : Text) → comes_back label ≡ true → stored_label label ≡ some label
comes_back-eq label h = elim (Option-cases (stored_label label)) [
  | inl n ↦ ground arith
  | inr (l, e) ↦ ground (arith, text_eq_iff l label)
]

-- The label of any distance comes back from the table as it was, so that no save fails at it.
pub stored_label-id :
    (km : ℕ) → stored_label (distance_bucket_label km) ≡ some (distance_bucket_label km)
unfolding distance_bucket_label
stored_label-id km = elim (Bool-cases (leb 100 km)) [
  | inl far ↦ rw far (comes_back-eq (codes "100+") far_comes_back)
  | inr near ↦ rw near (
      comes_back-eq (bin_label (km / 5))
        (all_below-at 20 (λ k. comes_back (bin_label k)) (km / 5) bins_come_back (ground arith)))
]
