-- ===== src/Tests/Answers.antt =====
-- internal/httpapi and internal/telemetry at concrete requests and packets.
use gomeshcom_client.Prelude.{
  ◌≡◌, ◌⊎◌, refl, ℤ, pos, negsuc, true, false, [], ◌∷◌, none, some, arith, ltb, leb, List,
}
use gomeshcom_client.Text.{Text, codes, text_eq, trim_left, trim_right, trim_space}
use gomeshcom_client.Map.{insert}
use gomeshcom_client.Netconsole.Auth.{hex_encode, hex_digit}
use gomeshcom_client.HttpApi.Sessions.{SessionStore, Moment, create, persist, valid}
use gomeshcom_client.HttpApi.Sessions.Accepted.{restarted, create-restart}
use gomeshcom_client.HttpApi.Compression.{Headers, close}
use gomeshcom_client.HttpApi.Compression.Whole.{
  Op, writes_header, writes, run, written, new_writer, IsDelivered, run-IsDelivered,
}
use gomeshcom_client.Telemetry.{Reading, Tables, Faults, append}
use gomeshcom_client.Telemetry.Atomic.{with_rows, append_atomic}

session : Unit {0}
unfolding insert text_eq hex_encode hex_digit create persist
session = tt

abbrev no_sessions : SessionStore
no_sessions = record { sessions = []; table = some [] }

abbrev morning : Moment
morning = record { now = 100; commits = true }

abbrev evening : Moment
evening = record { now = 400; commits = true }

-- A code that stands for SHA-256 here.
abbrev toy_hash : Text → Text
toy_hash token = b'#' ∷ token

create-restart_example :
    (valid toy_hash evening (codes "4142") (restarted 200 ((codes "#4142", 600) ∷ []))).1
    ≡ ltb 400 600
unfolding session
create-restart_example =
    create-restart toy_hash morning evening 200 500 (some (codes "AB")) no_sessions
      ((codes "#4142", 600) ∷ []) b'4' (codes "142") 600 tt refl refl refl (omega arith)

abbrev json : Headers
json = record {
  content_encoding = [];
  content_range = [];
  content_type = codes "application/json";
  content_length = [];
  vary = [];
}

abbrev ops : List Op
ops = writes_header 200 ∷ writes (codes "{") ∷ writes (codes "}") ∷ []

run-IsDelivered_example :
    IsDelivered (written ops) (close (run (λ b. codes "text/plain") ops (new_writer 2 json)))
run-IsDelivered_example = run-IsDelivered (λ b. codes "text/plain") ops 2 json refl

abbrev reading : Reading ℤ
reading = record {
  source = codes "QQ0YY-1";
  source_type = codes "lora";
  rssi = some (negsuc 89);
  snr = some (pos 5);
  battery = some (pos 80);
  temp1 = some (pos 21);
  temp2 = none;
  humidity = none;
  qfe = none;
  qnh = none;
  gas = none;
  co2 = none;
}

-- The second statement fails.
abbrev second_fails : Faults
second_fails = record { begin_fails = false; statement_fails = λ n. leb 1 n; commit_fails = false }

abbrev no_rows : Tables ℤ
no_rows = record { samples = []; signals = [] }

append_atomic_example :
    (append (λ n. n) second_fails reading 100 no_rows ≡ (no_rows, true))
    ⊎ (append (λ n. n) second_fails reading 100 no_rows
        ≡ (with_rows (λ n. n) reading (trim_space (codes "QQ0YY-1")) 100 no_rows, false))
unfolding trim_left trim_right trim_space
append_atomic_example = append_atomic (λ n. n) second_fails reading 100 no_rows refl
