-- ===== src/SendCache/Once.antt =====
-- internal/sendcache/sendcache.go: which messages `Reserve` refuses.
use gomeshcom_client.Prelude.{◌≡◌, true, false, ◌&&◌, [], ◌∷◌, some, arith, if◌then◌else◌}
use gomeshcom_client.Text.{Text, text_eq}
use gomeshcom_client.Text.Search.{text_eq_iff, lacks}
use gomeshcom_client.SendCache.{Lru, key_of, reserve}

-- Texts without a NUL are told apart in the keys.
key_of-injective :
    (d e m n : Text)
    → lacks 0 d ≡ true
    → lacks 0 e ≡ true
    → key_of d m ≡ key_of e n
    → (d ≡ e) × (m ≡ n)
key_of-injective [] [] m n p q h = ground arith
key_of-injective [] (c ∷ e) m n p q h = ground arith
key_of-injective (c ∷ d) [] m n p q h = ground arith
key_of-injective (c ∷ d) (a ∷ e) m n p q h = ground (arith, key_of-injective d e m n)

-- Behind a message that Reserve has accepted it refuses the same message, and judges one to another
-- destination or with another text as it would have without it, where the destinations have no NUL
-- and the cache finds, behind an addition, the key that was added and what it found before.
pub reserve_once :
    {L : Type 0} (lru : Lru L) (cache : L) (dst msg dst' msg' : Text)
    → lru.get (key_of dst msg) cache ≡ false
    → lacks 0 dst ≡ true
    → lacks 0 dst' ≡ true
    → ((j k : Text) (c : L) → lru.get j (lru.add k c) ≡ (if text_eq k j then true else lru.get j c))
    → ((reserve lru dst msg (some cache)).1 ≡ true)
      × ((reserve lru dst' msg' (reserve lru dst msg (some cache)).0).1 ≡ (
          if text_eq dst dst' && text_eq msg msg'
          then false
          else (reserve lru dst' msg' (some cache)).1))
unfolding reserve
reserve_once lru cache dst msg dst' msg' h p q law = ground (
  arith,
  law (key_of dst' msg') (key_of dst msg) cache,
  text_eq_iff (key_of dst msg) (key_of dst' msg'),
  text_eq_iff dst dst',
  text_eq_iff msg msg',
  key_of-injective dst dst' msg msg' p q,
)
