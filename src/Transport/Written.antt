-- ===== src/Transport/Written.antt =====
-- How the write loops of internal/netconsole and internal/serialbridge end.
use gomeshcom_client.Prelude.{◌≡◌, ◌≢◌, ◌++◌, Option, none, some, arith}
use gomeshcom_client.Text.{Text}

module _ {E : Type 0} (out_of_fuel : E) where
  -- All of the bytes are sent and there is no error, or a beginning of them and an error, which is
  -- not the one that stands for a loop that has not ended.
  pub data Written (raw : Text) : Text × Option E → Type 0 where
    all_sent : (sent : Text) → sent ≡ raw → Written raw (sent, none)
    stopped :
        (sent unsent : Text) (e : E)
        → sent ++ unsent ≡ raw
        → some e ≢ some out_of_fuel
        → Written raw (sent, some e)

  pub Written-sent :
      (raw : Text) (out : Text × Option E) → Written raw out → out.1 ≡ none → out.0 ≡ raw
  Written-sent raw _ (all_sent s e) h = e
  Written-sent raw _ (stopped s u e p n) h = ground arith
