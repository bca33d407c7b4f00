-- ===== src/Positions/Saved.antt =====
-- internal/positions/store.go: the life of the store between packets and saves.
use gomeshcom_client.Prelude.{ℤ, ℕ, Bool, false, Option, none, ◌≡◌, refl, arith}
use gomeshcom_client.Text.{Text}
use gomeshcom_client.Map.{Map, lookup, has}
use gomeshcom_client.Positions.{
  Record, Position, Store, load, touch_from_packet, update, begin_save, finish_save,
}
use gomeshcom_client.Positions.Tracked.{
  IsTracked, touch_from_packet-IsTracked, update-IsTracked, begin_save-IsTracked,
  finish_save-IsTracked,
}

module _ {F : Type 0} where
  -- One event: a packet, or a critical section of the saver.
  pub data Step (deep_equal : Record F → Record F → Bool) (zero : Record F) (s : Store F)
      : Store F → Type 0 where
    updates : (p : Position F) (t : ℕ) → Step deep_equal zero s (update deep_equal p t s).0
    touches :
        (src : Text) (rssi snr : Option ℤ) (t : ℕ)
        → Step deep_equal zero s (touch_from_packet src rssi snr t s).0
    begins : s.in_flight ≡ none → Step deep_equal zero s (begin_save zero s)
    finishes : (written : Bool) → Step deep_equal zero s (finish_save written s)

  pub data Reach (deep_equal : Record F → Record F → Bool) (zero : Record F)
      (nodes : Map (Record F)) : Store F → Type 0 where
    start : Reach deep_equal zero nodes (load nodes)
    next :
        {s s' : Store F}
        → Reach deep_equal zero nodes s
        → Step deep_equal zero s s'
        → Reach deep_equal zero nodes s'

  module _ {deep_equal : Record F → Record F → Bool} {zero : Record F} where
    Step-IsTracked : {s s' : Store F} → Step deep_equal zero s s' → IsTracked s → IsTracked s'
    Step-IsTracked (updates p t) k = update-IsTracked deep_equal p t k
    Step-IsTracked (touches src rssi snr t) k = touch_from_packet-IsTracked src rssi snr t k
    Step-IsTracked (begins n) k = begin_save-IsTracked zero k n
    Step-IsTracked (finishes written) k = finish_save-IsTracked written k

    Reach-IsTracked :
        {nodes : Map (Record F)} {s : Store F} → Reach deep_equal zero nodes s → IsTracked s
    unfolding load
    Reach-IsTracked start = record {
      stored = λ c h. refl;
      flagged = λ c h. unfold has lookup in refl;
      known = λ c h. absurd (unfold has lookup in ground arith);
      flown = λ m e c h. absurd (ground arith);
    }
    Reach-IsTracked (next r s) = Step-IsTracked s (Reach-IsTracked r)

  -- In every state that packets and saves reach from what was loaded, in any interleaving and
  -- with any failed writes: where the store is not dirty and no save is under way, the database
  -- has the record of every node, and of no other.
  pub clean_is_stored :
      (deep_equal : Record F → Record F → Bool) (zero : Record F) (nodes : Map (Record F))
      (s : Store F)
      → Reach deep_equal zero nodes s
      → s.dirty ≡ false
      → s.in_flight ≡ none
      → (c : Text) → lookup c s.nodes ≡ lookup c s.records
  clean_is_stored deep_equal zero nodes s r d n c =
      ground (arith, (Reach-IsTracked r).stored c, (Reach-IsTracked r).flagged c)
