-- ===== src/Tests/Stores.antt =====
-- The stores and the queues at concrete states.
use gomeshcom_client.Prelude.{ℕ, true, false, [], ◌∷◌, none, ◌≡◌, refl, arith}
use gomeshcom_client.Text.{
  Text, codes, upper, lower, to_upper, to_lower, text_eq, trim_left, trim_right, trim_space,
}
use gomeshcom_client.Text.Search.{ne_of_text_eq}
use gomeshcom_client.Map.{lookup}
use gomeshcom_client.Callsign.{match_ssid, match_base, match_pattern, normalize, is_valid}
use gomeshcom_client.Saving.{Store, put, begin_save, take_out, finish_save}
use gomeshcom_client.Station.{Identity, load, new_identity, update}
use gomeshcom_client.Station.Restart
use gomeshcom_client.ChannelShow.{Config, ConfigError, ok, err, default_config, mode_allowlist}
use gomeshcom_client.ChannelShow
use gomeshcom_client.DmStats
use gomeshcom_client.DmStats.Counters.{IsDominated, failed_save_is_lost}
use gomeshcom_client.Events.{Bus, new_bus, subscribe}

identities : Unit {0}
unfolding upper to_upper text_eq trim_left trim_right trim_space match_ssid match_base match_pattern
    normalize is_valid put begin_save take_out finish_save load new_identity update
identities = tt

abbrev call : Text
call = codes "QQ0YY-1"

abbrev first : Identity
first = new_identity none (codes "AA1AA")

abbrev changed : Identity
changed = (update call first).0

abbrev saved : Identity
saved = finish_save 0 true (begin_save changed)

saved-Reach : Restart.Reach none (codes "AA1AA") saved
unfolding identities
saved-Reach =
    Restart.next
      (Restart.next (Restart.next Restart.start (Restart.Step.updates call)) Restart.Step.begins)
      (Restart.Step.finishes true)

restart_reads_current_example : (new_identity saved.stored (codes "AA1AA")).current ≡ saved.current
unfolding identities
restart_reads_current_example =
    Restart.restart_reads_current none (codes "AA1AA") saved saved-Reach refl refl

overtaken_save_is_lost_example :
    let id' = Restart.overtaken call (codes "QQ0ZZ-2") first in
    (id'.current ≡ normalize (codes "QQ0ZZ-2"))
    × (id'.dirty ≡ false)
    × (id'.in_flight ≡ [])
    × ((new_identity id'.stored (codes "AA1AA")).current ≡ normalize call)
unfolding identities
overtaken_save_is_lost_example =
    Restart.overtaken_save_is_lost call (codes "QQ0ZZ-2") (codes "AA1AA") first refl refl
      (ne_of_text_eq call (codes "AA1AA") refl) (ne_of_text_eq (codes "QQ0ZZ-2") call refl) refl

channels : Unit {0}
unfolding lower to_lower text_eq trim_left trim_right trim_space ChannelShow.valid_channel
    ChannelShow.is_seen ChannelShow.normalize_onto ChannelShow.normalize_channels
    ChannelShow.effective_mode ChannelShow.normalize
channels = tt

abbrev asked : Config
asked = record { mode = []; channels = codes " 222" ∷ codes "*" ∷ codes "222" ∷ [] }

abbrev normal : Config
normal = record { mode = mode_allowlist; channels = codes "222" ∷ codes "*" ∷ [] }

abbrev shown : Store Config
shown = record { current = default_config; dirty = false; in_flight = []; stored = none }

abbrev no_counts : DmStats.Store
no_counts = record { entries = []; dirty = false; in_flight = none; stored = [] }

no_counts-IsDominated : IsDominated no_counts
unfolding DmStats.get_or_create lookup
no_counts-IsDominated = record { sent = λ k. omega arith; acks = λ k. omega arith }

failed_save_is_lost_example :
    let s' = DmStats.finish_save false (DmStats.begin_save (DmStats.record_sent call no_counts)) in
    (s'.dirty ≡ false)
    × (s'.entries ≡ (DmStats.record_sent call no_counts).entries)
    × (s'.stored ≡ no_counts.stored)
    × (DmStats.begin_save s' ≡ s')
    × (DmStats.finish_save true (DmStats.begin_save s') ≡ s')
failed_save_is_lost_example = failed_save_is_lost call no_counts

abbrev bus : Bus ℕ
bus = (subscribe new_bus).0
