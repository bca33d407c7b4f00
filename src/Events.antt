-- ===== src/Events.antt =====
-- internal/events/bus.go: `Bus`. A channel is the list of the events that wait in it.
pub mod Bounded
use gomeshcom_client.Prelude.{
  ℕ, zero, suc, ◌+◌, Bool, true, false, Option, none, some, List, [], ◌∷◌, ◌++◌, map, length,
  if◌then◌else◌, ltb, ◌==◌,
}

-- The capacity of a subscriber's channel.
abbrev pub capacity : ℕ
capacity = 16

-- A subscriber has a number, in the order of the subscriptions.
pub record Subscriber {ℓ} (E : Type ℓ) : Type ℓ where
  pub number : ℕ
  pub queue : List E

pub record Bus {ℓ} (E : Type ℓ) : Type ℓ where
  pub next_number : ℕ
  pub subscribers : List (Subscriber E)

module _ {ℓ} {E : Type ℓ} where
  -- `select { case subscriber <- event: default: }`
  unfoldable pub offer : E → List E → List E
  offer event queue = if ltb (length queue) capacity then queue ++ (event ∷ []) else queue

  unfoldable pub new_bus : Bus E
  new_bus = record { next_number = 0; subscribers = [] }

  unfoldable pub publish : E → Bus E → Bus E
  publish event b = record b {
    subscribers =
        map (λ (s : Subscriber E). record s { queue = offer event s.queue }) b.subscribers;
  }

  unfoldable pub subscribe : Bus E → Bus E × ℕ
  subscribe b = (
    record b {
      next_number = suc b.next_number;
      subscribers = (record { number = b.next_number; queue = [] }) ∷ b.subscribers;
    },
    b.next_number,
  )

  -- The end of the subscriber's context.
  unfoldable pub without : ℕ → List (Subscriber E) → List (Subscriber E)
  without n [] = []
  without n (s ∷ ss) = let rest = without n ss in if s.number == n then rest else s ∷ rest

  unfoldable pub unsubscribe : ℕ → Bus E → Bus E
  unsubscribe n b = record b { subscribers = without n b.subscribers }
