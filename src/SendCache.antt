-- ===== src/SendCache.antt =====
-- internal/sendcache/sendcache.go: messages that were sent a short time ago. The cache of package lru is
-- a parameter.
pub mod Once
use gomeshcom_client.Prelude.{Bool, true, false, ◌∷◌, ◌++◌, Option, none, some, if◌then◌else◌}
use gomeshcom_client.Text.{Text}

-- The calls of `expirable.LRU`, at a moment.
pub record Lru (L : Type 0) : Type 0 where
  pub get : Text → L → Bool
  pub add : Text → L → L

-- `none` is a disabled cache.
abbrev pub Cache : Type 0 → Type 0
Cache L = Option L

abbrev pub key_of : Text → Text → Text
key_of dst msg = dst ++ (0 ∷ msg)

module _ {L : Type 0} (lru : Lru L) where
  unfoldable pub reserve : Text → Text → Cache L → Cache L × Bool
  reserve dst msg none = (none, true)
  reserve dst msg (some cache) =
      if lru.get (key_of dst msg) cache
      then (some cache, false)
      else (some (lru.add (key_of dst msg) cache), true)
