-- ===== src/UdpForward.antt =====
-- internal/udpforward/forwarder.go: `Forward`. A worker's channel is the list of the datagrams
-- that wait in it.
pub mod Newest
use gomeshcom_client.Prelude.{
  ℕ, zero, suc, ◌+◌, Bool, true, false, List, [], ◌∷◌, ◌++◌, map, length, is_empty, if◌then◌else◌,
  ltb,
}
use gomeshcom_client.Text.{Text}

abbrev pub worker_channel_cap : ℕ
worker_channel_cap = 256

-- `<-w.ch` on a channel that may be empty.
unfoldable pub drop_oldest : List Text → List Text
drop_oldest [] = []
drop_oldest (d ∷ ds) = ds

unfoldable pub try_send : Text → List Text → List Text
try_send d queue = if ltb (length queue) worker_channel_cap then queue ++ (d ∷ []) else queue

-- One round of the loop over the workers.
unfoldable pub enqueue : Text → List Text → List Text
enqueue d queue =
    if ltb (length queue) worker_channel_cap
    then try_send d queue
    else try_send d (drop_oldest queue)

unfoldable pub forward : Text → List (List Text) → List (List Text)
forward d workers = if is_empty workers then workers else map (enqueue d) workers
