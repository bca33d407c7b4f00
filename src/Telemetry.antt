-- ===== src/Telemetry.antt =====
-- internal/telemetry/store.go: the samples of a packet, in one transaction.
pub mod Atomic
use gomeshcom_client.Prelude.{
  ℕ, suc, ◌+◌, ℤ, Bool, true, false, ◌||◌, ◌&&◌, List, [], ◌∷◌, ◌++◌, Option, none, some, is_empty,
  length, if◌then◌else◌,
}
use gomeshcom_client.Text.{Text, codes, trim_space}
use gomeshcom_client.Meshcom.Outgoing.{split_source_path}

-- `meshcom.Telemetry`; `F` stands for `float64`.
pub record Reading (F : Type 0) : Type 0 where
  pub source : Text
  pub source_type : Text
  pub rssi : Option ℤ
  pub snr : Option ℤ
  pub battery : Option ℤ
  pub temp1 : Option F
  pub temp2 : Option F
  pub humidity : Option F
  pub qfe : Option F
  pub qnh : Option F
  pub gas : Option F
  pub co2 : Option F

pub record Sample (F : Type 0) : Type 0 where
  pub metric : Text
  pub value : F

-- A row of telemetry_samples and one of telemetry_direct_signal. `none` is NULL.
pub record SampleRow (F : Type 0) : Type 0 where
  pub received_at : ℕ
  pub src : Text
  pub src_origin : Text
  pub src_type : Option Text
  pub sample : Sample F

pub record SignalRow : Type 0 where
  pub received_at : ℕ
  pub src : Text
  pub src_origin : Text
  pub src_type : Option Text
  pub rssi : Option ℤ
  pub snr : Option ℤ

pub record Tables (F : Type 0) : Type 0 where
  pub samples : List (SampleRow F)
  pub signals : List SignalRow

-- The errors of the database: of the statement with a number in its transaction, and of its ends.
pub record Faults : Type 0 where
  pub begin_fails : Bool
  pub statement_fails : ℕ → Bool
  pub commit_fails : Bool

-- A transaction: what it has written, how many statements it has run, and whether one has failed,
-- behind which it runs no more.
pub record Transaction (F : Type 0) : Type 0 where
  pub tables : Tables F
  pub statements : ℕ
  pub failed : Bool

unfoldable pub null_string : Text → Option Text
null_string s = if is_empty (trim_space s) then none else some s

abbrev pub is_none {ℓ} : {A : Type ℓ} → Option A → Bool
is_none none = true
is_none (some a) = false

module _ {F : Type 0} where
  unfoldable pub append_float_sample : Text → Option F → List (Sample F) → List (Sample F)
  append_float_sample metric none samples = samples
  append_float_sample metric (some v) samples =
      samples ++ (record { metric = metric; value = v } ∷ [])

  -- `float64` of an `int` is an argument.
  unfoldable pub append_int_sample : (ℤ → F) → Text → Option ℤ → List (Sample F) → List (Sample F)
  append_int_sample float metric none samples = samples
  append_int_sample float metric (some v) samples =
      samples ++ (record { metric = metric; value = float v } ∷ [])

  unfoldable pub telemetry_samples : (ℤ → F) → Reading F → List (Sample F)
  telemetry_samples float p = append_float_sample (codes "co2") p.co2 (
      append_float_sample (codes "gas") p.gas (
        append_float_sample (codes "qnh") p.qnh (
          append_float_sample (codes "qfe") p.qfe (
            append_float_sample (codes "hum") p.humidity (
              append_float_sample (codes "temp2") p.temp2 (
                append_float_sample (codes "temp1") p.temp1
                  (append_int_sample float (codes "batt") p.battery [])))))))

  -- A statement that changes the tables.
  unfoldable pub exec : Faults → (Tables F → Tables F) → Transaction F → Transaction F
  exec f change tx =
      if tx.failed
      then tx
      else if f.statement_fails tx.statements
      then record tx { statements = suc tx.statements; failed = true }
      else record tx { tables = change tx.tables; statements = suc tx.statements }

  abbrev pub add_sample : SampleRow F → Tables F → Tables F
  add_sample row t = record t { samples = t.samples ++ (row ∷ []) }

  abbrev pub add_signal : SignalRow → Tables F → Tables F
  add_signal row t = record t { signals = t.signals ++ (row ∷ []) }

  abbrev pub sample_row : Reading F → Text → Text → ℕ → Sample F → SampleRow F
  sample_row p source origin received_at s = record {
    received_at = received_at;
    src = source;
    src_origin = origin;
    src_type = null_string p.source_type;
    sample = s;
  }

  -- The loop of `appendSamples`.
  unfoldable pub append_samples :
      Faults → Reading F → Text → Text → ℕ → List (Sample F) → Transaction F → Transaction F
  append_samples f p source origin received_at [] tx = tx
  append_samples f p source origin received_at (s ∷ more) tx =
      append_samples f p source origin received_at more
        (exec f (add_sample (sample_row p source origin received_at s)) tx)

  unfoldable pub append_direct_signal :
      Faults → Reading F → Text → Text → ℕ → Transaction F → Transaction F
  append_direct_signal f p source origin received_at tx =
      if is_none p.rssi && is_none p.snr
      then tx
      else exec f
          (add_signal (record {
            received_at = received_at;
            src = source;
            src_origin = origin;
            src_type = null_string p.source_type;
            rssi = p.rssi;
            snr = p.snr;
          }))
          tx

  -- The end of a transaction: the tables and whether there is an error.
  unfoldable pub finish : Faults → Tables F → Transaction F → Tables F × Bool
  finish f before tx = if tx.failed || f.commit_fails then (before, true) else (tx.tables, false)

  -- `Append` behind the test of the source.
  unfoldable pub append_from : (ℤ → F) → Faults → Reading F → Text → ℕ → Tables F → Tables F × Bool
  append_from float f p source received_at tables =
      let (origin, via) = split_source_path source in
      let begun : Transaction F = record { tables = tables; statements = 0; failed = false } in
      let written =
        append_samples f p source origin received_at (telemetry_samples float p) begun in
      if f.begin_fails
      then (tables, true)
      else finish f tables (
          if is_empty via
          then append_direct_signal f p source origin received_at written
          else written)

  unfoldable pub append : (ℤ → F) → Faults → Reading F → ℕ → Tables F → Tables F × Bool
  append float f p received_at tables =
      let source = trim_space p.source in
      if is_empty source then (tables, false) else append_from float f p source received_at tables
