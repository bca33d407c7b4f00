-- ===== src/Events/Bounded.antt =====
-- internal/events/bus.go: a subscriber that reads slower than events are published.
use gomeshcom_client.Prelude.{
  ℕ, zero, suc, ◌≤◌, ◌≡◌, refl, ap, ◌∙◌, sym, Option, none, some, List, [], ◌∷◌, ◌++◌, map, length,
  take, if◌then◌else◌, ltb, ◌==◌, arith, Bool-cases, inl, inr, append_assoc, length-append,
  append-nil,
}
use gomeshcom_client.Events.{capacity, Subscriber, Bus, offer, publish}

module _ {ℓ} {E : Type ℓ} where
  -- Several events, published one after the other.
  pub publish_all : List E → Bus E → Bus E
  publish_all [] b = b
  publish_all (e ∷ es) b = publish_all es (publish e b)

  offer_all : List E → List E → List E
  offer_all [] q = q
  offer_all (e ∷ es) q = offer_all es (offer e q)

  take_short : (k : ℕ) (q : List E) → length q ≤ k → take k q ≡ q
  take_short (suc k) (e ∷ q) h = ap (◌∷◌ e) (take_short k q (omega arith))
  take_short (suc k) [] h = refl
  take_short zero (e ∷ q) h = absurd (omega arith)
  take_short zero [] h = refl

  take-append_full : (n : ℕ) (xs ys : List E) → n ≤ length xs → take n (xs ++ ys) ≡ take n xs
  take-append_full zero xs ys h = refl
  take-append_full (suc n) [] ys h = absurd (omega arith)
  take-append_full (suc n) (x ∷ xs) ys h = ap (◌∷◌ x) (take-append_full n xs ys (omega arith))

  offer_all-take : (es q : List E) → length q ≤ capacity → offer_all es q ≡ take capacity (q ++ es)
  unfolding offer_all offer
  offer_all-take [] q h = sym (rw append-nil (take_short capacity q h))
  offer_all-take (e ∷ es) q h = elim (Bool-cases (ltb (length q) capacity)) [
    | inl room ↦ rw room (
        offer_all-take es (q ++ (e ∷ [])) (ground (arith, length-append q (e ∷ [])))
        ∙ ap (take capacity) (append_assoc q (e ∷ []) es))
    | inr full ↦ rw full (
        offer_all-take es q h
        ∙ take-append_full capacity q es (ground arith)
        ∙ sym (take-append_full capacity q (e ∷ es) (ground arith)))
  ]

  -- The queue of a subscriber.
  unfoldable pub queue_in : ℕ → List (Subscriber E) → Option (List E)
  queue_in n [] = none
  queue_in n (s ∷ ss) = if s.number == n then some s.queue else queue_in n ss

  offered : E → List (Subscriber E) → List (Subscriber E)
  offered e = map (λ (s : Subscriber E). record s { queue = offer e s.queue })

  queue_in-offered :
      (n : ℕ) (e : E) (ss : List (Subscriber E)) (q : List E)
      → queue_in n ss ≡ some q
      → queue_in n (offered e ss) ≡ some (offer e q)
  unfolding queue_in offered
  queue_in-offered n e [] q h = absurd (ground arith)
  queue_in-offered n e (s ∷ ss) q h = ground (arith, queue_in-offered n e ss q)

  publish_all-offer :
      (es : List E) (n : ℕ) (b : Bus E) (q : List E)
      → queue_in n b.subscribers ≡ some q
      → queue_in n (publish_all es b).subscribers ≡ some (offer_all es q)
  unfolding publish_all publish offer_all offered
  publish_all-offer [] n b q h = h
  publish_all-offer (e ∷ es) n b q h =
      publish_all-offer es n (publish e b) (offer e q) (queue_in-offered n e b.subscribers q h)

  -- Of the events that are published while a subscriber reads nothing, its channel keeps the
  -- first, behind those that wait there, up to its capacity; the later ones are dropped for it
  -- alone, and publishing never waits.
  pub publish_all-take :
      (es : List E) (n : ℕ) (b : Bus E) (q : List E)
      → queue_in n b.subscribers ≡ some q
      → length q ≤ capacity
      → queue_in n (publish_all es b).subscribers ≡ some (take capacity (q ++ es))
  publish_all-take es n b q h fits =
      publish_all-offer es n b q h ∙ ap some (offer_all-take es q fits)
