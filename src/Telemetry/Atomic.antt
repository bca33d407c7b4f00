-- ===== src/Telemetry/Atomic.antt =====
-- internal/telemetry/store.go: what a transaction leaves behind.
use gomeshcom_client.Prelude.{
  ℕ, ◌≡◌, ◌⊎◌, ℤ, Bool, true, false, not, ◌&&◌, List, [], ◌∷◌, ◌++◌, map, append_assoc, append-nil,
  arith, is_empty, if◌then◌else◌,
}
use gomeshcom_client.Text.{Text, trim_space}
use gomeshcom_client.Meshcom.Outgoing.{split_source_path}
use gomeshcom_client.Telemetry.{
  Reading, Sample, SignalRow, Tables, Faults, Transaction, null_string, is_none, telemetry_samples,
  exec, add_sample, sample_row, append_samples, append_direct_signal, finish, append_from, append,
}

module _ {F : Type 0} where
  -- All the rows of a packet that was received from this source.
  abbrev pub with_samples : Reading F → Text → Text → ℕ → List (Sample F) → Tables F → Tables F
  with_samples p source origin received_at ss t = record t {
    samples = t.samples ++ map (sample_row p source origin received_at) ss;
  }

  abbrev pub signal_rows : Reading F → Text → Text → ℕ → Bool → List SignalRow
  signal_rows p source origin received_at direct =
      if direct && not (is_none p.rssi && is_none p.snr)
      then record {
        received_at = received_at;
        src = source;
        src_origin = origin;
        src_type = null_string p.source_type;
        rssi = p.rssi;
        snr = p.snr;
      }
        ∷ []
      else []

  abbrev pub with_rows : (ℤ → F) → Reading F → Text → ℕ → Tables F → Tables F
  with_rows float p source received_at t =
      let (origin, via) = split_source_path source in
      record {
        samples =
            t.samples ++ map (sample_row p source origin received_at) (telemetry_samples float p);
        signals = t.signals ++ signal_rows p source origin received_at (is_empty via);
      }

  append_samples-tables :
      (f : Faults) (p : Reading F) (source origin : Text) (received_at : ℕ) (ss : List (Sample F))
      (tx : Transaction F)
      → (append_samples f p source origin received_at ss tx).failed ≡ false
      → (tx.failed ≡ false)
        × ((append_samples f p source origin received_at ss tx).tables
            ≡ with_samples p source origin received_at ss tx.tables)
  unfolding append_samples exec
  append_samples-tables f p source origin received_at [] tx h =
      ground (arith, append-nil tx.tables.samples)
  append_samples-tables f p source origin received_at (s ∷ ss) tx h =
      let row = sample_row p source origin received_at s in
      ground (
        arith,
        append_samples-tables f p source origin received_at ss (exec f (add_sample row) tx),
        append_assoc tx.tables.samples (row ∷ []) (map (sample_row p source origin received_at) ss),
      )

  -- Whichever statement fails, a packet with a source leaves the tables as they were and an error, or
  -- it leaves all its rows and none: one for each value, and one for the signal if the packet came
  -- without relays.
  pub append_atomic :
      (float : ℤ → F) (f : Faults) (p : Reading F) (received_at : ℕ) (t : Tables F)
      → is_empty (trim_space p.source) ≡ false
      → (append float f p received_at t ≡ (t, true))
        ⊎ (append float f p received_at t
            ≡ (with_rows float p (trim_space p.source) received_at t, false))
  unfolding append append_from finish append_direct_signal exec
  append_atomic float f p received_at t h =
      let source = trim_space p.source in
      let (origin, via) = split_source_path source in
      let begun : Transaction F = record { tables = t; statements = 0; failed = false } in
      let samples =
        append_samples-tables f p source origin received_at (telemetry_samples float p) begun in
      ground (arith, samples, append-nil t.signals)
