-- ===== src/UdpForward/Newest.antt =====
-- internal/udpforward/forwarder.go: a target that sends slower than datagrams arrive.
use gomeshcom_client.Prelude.{
  ℕ, suc, ◌-◌, ◌≤◌, ◌<◌, ◌≡◌, refl, ap, ◌∙◌, sym, List, [], ◌∷◌, ◌++◌, map, length, drop, ltb,
  arith, Bool-cases, inl, inr, append_assoc, length-append, append-nil,
}
use gomeshcom_client.Text.{Text}
use gomeshcom_client.UdpForward.{worker_channel_cap, drop_oldest, try_send, enqueue, forward}

-- The last elements, `n` at most.
abbrev pub last : ℕ → List Text → List Text
last n xs = drop (length xs - n) xs

-- Several datagrams, forwarded one after the other.
pub forward_all : List Text → List (List Text) → List (List Text)
forward_all [] workers = workers
forward_all (d ∷ ds) workers = forward_all ds (forward d workers)

enqueue_all : List Text → List Text → List Text
enqueue_all [] q = q
enqueue_all (d ∷ ds) q = enqueue_all ds (enqueue d q)

length-drop_oldest : (q : List Text) → length (drop_oldest q) ≡ length q - 1
unfolding drop_oldest
length-drop_oldest [] = omega arith
length-drop_oldest (d ∷ q) = omega arith

last_of_length-le : (n : ℕ) (xs : List Text) → length xs ≤ n → last n xs ≡ xs
last_of_length-le n xs h = let e : length xs - n ≡ 0 = omega arith in rw e

last-cons_full : (n : ℕ) (x : Text) (xs : List Text) → n ≤ length xs → last n (x ∷ xs) ≡ last n xs
last-cons_full n x xs h = let e : suc (length xs) - n ≡ suc (length xs - n) = omega arith in rw e

enqueue_full :
    (d : Text) (x : Text) (q : List Text)
    → length (x ∷ q) ≡ worker_channel_cap
    → enqueue d (x ∷ q) ≡ q ++ (d ∷ [])
unfolding enqueue try_send drop_oldest
enqueue_full d x q h = ground arith

enqueue_room :
    (d : Text) (q : List Text) → length q < worker_channel_cap → enqueue d q ≡ q ++ (d ∷ [])
unfolding enqueue try_send
enqueue_room d q h = ground arith

full_case :
    (d : Text) (ds q : List Text)
    → length q ≡ worker_channel_cap
    → ((q' : List Text)
        → length q' ≤ worker_channel_cap
        → enqueue_all ds q' ≡ last worker_channel_cap (q' ++ ds))
    → enqueue_all ds (enqueue d q) ≡ last worker_channel_cap (q ++ (d ∷ ds))
full_case d ds [] h ih = absurd (omega arith)
full_case d ds (x ∷ r) h ih = rw (enqueue_full d x r h) (
    ih (r ++ (d ∷ [])) (omega (arith, length-append r (d ∷ [])))
    ∙ ap (last worker_channel_cap) (append_assoc r (d ∷ []) ds)
    ∙ sym (
        last-cons_full worker_channel_cap x (r ++ (d ∷ ds))
          (omega (arith, length-append r (d ∷ ds)))))

enqueue_all-last :
    (ds q : List Text)
    → length q ≤ worker_channel_cap
    → enqueue_all ds q ≡ last worker_channel_cap (q ++ ds)
unfolding enqueue_all
enqueue_all-last [] q h = sym (rw append-nil (last_of_length-le worker_channel_cap q h))
enqueue_all-last (d ∷ ds) q h = elim (Bool-cases (ltb (length q) worker_channel_cap)) [
  | inl room ↦ rw (enqueue_room d q (ground arith)) (
      enqueue_all-last ds (q ++ (d ∷ [])) (ground (arith, length-append q (d ∷ [])))
      ∙ ap (last worker_channel_cap) (append_assoc q (d ∷ []) ds))
  | inr full ↦ full_case d ds q (ground arith) (enqueue_all-last ds)
]

map_same : (workers : List (List Text)) → workers ≡ map (enqueue_all []) workers
unfolding enqueue_all
map_same [] = refl
map_same (w ∷ workers) = ap (◌∷◌ w) (map_same workers)

forward-enqueue :
    (d : Text) (workers : List (List Text)) → forward d workers ≡ map (enqueue d) workers
unfolding forward
forward-enqueue d [] = refl
forward-enqueue d (w ∷ workers) = refl

map-enqueue_all :
    (d : Text) (ds : List Text) (workers : List (List Text))
    → map (enqueue_all ds) (map (enqueue d) workers) ≡ map (enqueue_all (d ∷ ds)) workers
unfolding enqueue_all
map-enqueue_all d ds [] = refl
map-enqueue_all d ds (w ∷ workers) =
    ap (◌∷◌ (enqueue_all ds (enqueue d w))) (map-enqueue_all d ds workers)

forward_all-enqueue :
    (ds : List Text) (workers : List (List Text))
    → forward_all ds workers ≡ map (enqueue_all ds) workers
unfolding forward_all enqueue_all
forward_all-enqueue [] workers = map_same workers
forward_all-enqueue (d ∷ ds) workers =
    rw forward-enqueue
      (forward_all-enqueue ds (map (enqueue d) workers) ∙ map-enqueue_all d ds workers)

abbrev pub AreBounded : List (List Text) → Type 0
AreBounded [] = Unit
AreBounded (w ∷ workers) = (length w ≤ worker_channel_cap) × AreBounded workers

map-last :
    (ds : List Text) (workers : List (List Text))
    → AreBounded workers
    → map (enqueue_all ds) workers ≡ map (λ w. last worker_channel_cap (w ++ ds)) workers
map-last ds [] b = refl
map-last ds (w ∷ workers) b = cc (enqueue_all-last ds w b.0, map-last ds workers b.1)

-- Of the datagrams that are forwarded while the targets take nothing, the channel of each target
-- holds the newest, in order and up to its capacity, behind what is left of those that waited
-- there; no target changes what another one gets.
pub forward_all-last :
    (ds : List Text) (workers : List (List Text))
    → AreBounded workers
    → forward_all ds workers ≡ map (λ w. last worker_channel_cap (w ++ ds)) workers
forward_all-last ds workers b = forward_all-enqueue ds workers ∙ map-last ds workers b
