-- ===== src/Stats/Ranges.antt =====
-- internal/stats/store.go: what `ReadRange` returns.
use gomeshcom_client.Prelude.{
  ℕ, ◌+◌, ◌≡◌, ◌≤◌, refl, Bool, true, ◌&&◌, List, [], ◌∷◌, arith, if◌then◌else◌, leb,
}
use gomeshcom_client.Map.Numbered.{NumberMap}
use gomeshcom_client.Stats.{
  Bucket, Store, hour_key, in_range, insert_by_hour, sort_by_hour, read_range,
}

abbrev one_if : Bool → ℕ
one_if b = if b then 1 else 0

-- How many buckets pass a test, of a list and of the entries in a range of hours, both ends included.
abbrev pub count_of : (Bucket → Bool) → List Bucket → ℕ
count_of p [] = 0
count_of p (b ∷ bs) = one_if (p b) + count_of p bs

abbrev pub count_between : (Bucket → Bool) → ℕ → ℕ → NumberMap Bucket → ℕ
count_between p from to [] = 0
count_between p from to ((k, b) ∷ m) =
    one_if ((leb from k && leb k to) && p b) + count_between p from to m

-- The hours do not fall.
abbrev starts_from : ℕ → List Bucket → Bool
starts_from h [] = true
starts_from h (b ∷ bs) = leb h b.hour_unix

abbrev pub is_sorted : List Bucket → Bool
is_sorted [] = true
is_sorted (b ∷ bs) = starts_from b.hour_unix bs && is_sorted bs

in_range-count :
    (p : Bucket → Bool) (from to : ℕ) (m : NumberMap Bucket)
    → count_of p (in_range from to m) ≡ count_between p from to m
unfolding in_range
in_range-count p from to [] = refl
in_range-count p from to ((k, b) ∷ m) = ground (arith, in_range-count p from to m)

insert_by_hour-count :
    (p : Bucket → Bool) (b : Bucket) (cs : List Bucket)
    → count_of p (insert_by_hour b cs) ≡ one_if (p b) + count_of p cs
unfolding insert_by_hour
insert_by_hour-count p b [] = refl
insert_by_hour-count p b (c ∷ cs) = ground (arith, insert_by_hour-count p b cs)

sort_by_hour-count :
    (p : Bucket → Bool) (bs : List Bucket) → count_of p (sort_by_hour bs) ≡ count_of p bs
unfolding sort_by_hour
sort_by_hour-count p [] = refl
sort_by_hour-count p (b ∷ bs) =
    ground (arith, insert_by_hour-count p b (sort_by_hour bs), sort_by_hour-count p bs)

insert_by_hour-is_sorted :
    (b : Bucket) (cs : List Bucket) (h : ℕ)
    → is_sorted cs ≡ true
    → (is_sorted (insert_by_hour b cs) ≡ true)
      × (starts_from h cs ≡ true → h ≤ b.hour_unix → starts_from h (insert_by_hour b cs) ≡ true)
unfolding insert_by_hour
insert_by_hour-is_sorted b [] h s = ground arith
insert_by_hour-is_sorted b (c ∷ cs) h s = ground (arith, insert_by_hour-is_sorted b cs c.hour_unix)

sort_by_hour-is_sorted : (bs : List Bucket) → is_sorted (sort_by_hour bs) ≡ true
unfolding sort_by_hour
sort_by_hour-is_sorted [] = refl
sort_by_hour-is_sorted (b ∷ bs) =
    ground (arith, insert_by_hour-is_sorted b (sort_by_hour bs) 0, sort_by_hour-is_sorted bs)

-- ReadRange returns the buckets of the hours from that of `from` to that of `to`, both included, each
-- as often as it is stored, and in the order of their hours.
pub read_range-count :
    (from to : ℕ) (s : Store) (p : Bucket → Bool)
    → (count_of p (read_range from to s) ≡ count_between p (hour_key from) (hour_key to) s.buckets)
      × (is_sorted (read_range from to s) ≡ true)
unfolding read_range
read_range-count from to s p =
    let kept = in_range (hour_key from) (hour_key to) s.buckets in
    ground (
      arith,
      sort_by_hour-count p kept,
      in_range-count p (hour_key from) (hour_key to) s.buckets,
      sort_by_hour-is_sorted kept,
    )
