-- ===== src/App/Gnb/Rows.antt =====
-- A run of the gNB with the load generator of this library.
use Prim.Native.String.{String}
use text.Mathlib.Text.{◌==◌ as str_eq}
use proto_test.Base.{
  ℕ, suc, ◌≤◌, ◌≡◌, ◌≢◌, refl, sym, ap, ◌∙◌, subst, ◌⊎◌, inl, inr, List, [], ◌∷◌, All, length, true,
  false, is_pos, Option, none, some, Error, not_empty, ℤ, Floats, Result, ok,
}
use proto_test.Config.{RunConfig}
use proto_test.Metrics.{Snapshot}
use proto_test.Metrics.Csv.{Cell, write_csv}
use proto_test.Metrics.Csv.RoundTrip.{IsTimed, write_csv_error, read_table, read_table-write_csv}
use proto_test.Nas.{load_template}
use proto_test.Load.Run.{Runner, Event, run_latency, run_flood}
use proto_test.Load.Sweep.{last_row, step_count, run_throughput_sweep}
use proto_test.Load.Sweep.Steps.{latency_run, IsAtSteps, positive_sweep}
use proto_test.App.Gnb.{ping, Calls, payload_of, run_mode, report, run}

payload_of-ping : (k : Calls) (cfg : RunConfig) → cfg.nas_path ≡ "" → payload_of k cfg ≡ ok ping
unfolding payload_of
payload_of-ping k cfg h = rw (subst (λ s. str_eq s "" ≡ true) (sym h) refl) refl

run_mode-throughput :
    (k : Calls) (r : Runner) (payload : List ℕ)
    → r.run_cfg.mode ≡ "throughput"
    → run_mode k r payload ≡ k.run_throughput_sweep r payload
unfolding run_mode
run_mode-throughput k r payload h =
    let other = subst (λ s. str_eq s "latency" ≡ false) (sym h) refl in
    let this = subst (λ s. str_eq s "throughput" ≡ true) (sym h) refl in rw (other, this) refl

report-writes :
    (k : Calls) (cfg : RunConfig) (rows : List Snapshot)
    → cfg.output_csv ≢ ""
    → k.write_csv cfg.output_csv rows ≡ none
    → report k cfg rows
      ≡ record { error = none; written = some (cfg.output_csv, rows); summary = last_row rows }
unfolding report
report-writes k cfg rows h w = rw (not_empty cfg.output_csv h) (rw w refl)

module _ (fl : Floats) (es : ℕ → List Event) (since now : ℕ → ℤ) where
  -- The runs of the load generator, on the events of each step.
  abbrev pub calls : (RunConfig → Result (List ℕ)) → (String → List Snapshot → Option Error) → Calls
  calls load_template write_csv = record {
    load_template = load_template;
    run_latency = λ r payload. ok (run_latency fl r (es 0) (since 0) (now 0));
    run_throughput_sweep = λ r payload. run_throughput_sweep (latency_run fl es since now) r;
    run_flood = λ r payload. ok (run_flood fl r (es 0) (now 0));
    write_csv = write_csv;
  }

  -- A throughput run whose payload can be had, and whose rows can be written.
  run_rows :
      (load_template : RunConfig → Result (List ℕ))
      (write_csv : String → List Snapshot → Option Error) (r : Runner) (payload : List ℕ)
      → payload_of (calls load_template write_csv) r.run_cfg ≡ ok payload
      → r.run_cfg.mode ≡ "throughput"
      → is_pos r.run_cfg.step_duration ≡ true
      → r.run_cfg.output_csv ≢ ""
      → ((rows : List Snapshot) → write_csv r.run_cfg.output_csv rows ≡ none)
      → (rows : List Snapshot) × (run (calls load_template write_csv) r ≡ record {
        error = none;
        written = some (r.run_cfg.output_csv, rows);
        summary = last_row rows;
      })
        × (length rows ≡ step_count r.run_cfg)
        × (1 ≤ length rows)
        × IsAtSteps r.run_cfg now 0 rows
  unfolding run
  run_rows load_template write_csv r payload p m d o w =
      let k = calls load_template write_csv in
      let (rows, e, l, n, s) = positive_sweep fl es since now r d in
      (
        rows,
        rw (p, run_mode-throughput k r payload m, e, report-writes k r.run_cfg rows o (w rows))
            refl,
        l,
        n,
        s,
      )

  -- The files of the system: reading one, times as texts and back, which the times at the ends of the
  -- runs survive, and a file for the rows that can be created and takes every record.
  module _ (read_file : String → Result (List ℕ)) (format_time : ℤ → String)
      (read_time : String → Option ℤ)
      (timed : (i : ℕ) → read_time (format_time (now i)) ≡ some (now i))
      (write : ℕ → List Cell → Option Error)
      (takes : (i : ℕ) (rec : List Cell) → write i rec ≡ none) where
    -- `LoadTemplate` and `WriteCSV` of this library.
    abbrev pub program : Calls
    program =
        calls (λ cfg. load_template read_file cfg.nas_path cfg.nas_hex)
          (λ path rows. (write_csv format_time none write rows).error)

    IsAtSteps-IsTimed :
        (cfg : RunConfig) (i : ℕ) (rows : List Snapshot)
        → IsAtSteps cfg now i rows
        → All (IsTimed read_time format_time) rows
    IsAtSteps-IsTimed cfg i [] h = tt
    IsAtSteps-IsTimed cfg i (s ∷ rows) (_, _, at, rest) =
        (rw at (timed i), IsAtSteps-IsTimed cfg (suc i) rows rest)

    payload-program :
        (cfg : RunConfig) (payload : List ℕ)
        → ((cfg.nas_path ≡ "") × (payload ≡ ping))
          ⊎ ((cfg.nas_path ≢ "") × (load_template read_file cfg.nas_path cfg.nas_hex ≡ ok payload))
        → payload_of program cfg ≡ ok payload
    payload-program cfg payload (inl (none', e)) = payload_of-ping program cfg none' ∙ ap ok (sym e)
    payload-program cfg payload (inr (some', e)) =
        unfold payload_of in rw (not_empty cfg.nas_path some') e

    -- A throughput run of the client with a positive step duration, on a system where the times at the
    -- ends of its runs can be read back, the file for the rows can be created and every record is
    -- taken, and whose template file, if one is named, can be loaded: it ends without an error, the
    -- records written are read back as one row for each step, in order, each with the rate of its
    -- step and the time at its end, and the row that is printed is the last of them.
    pub run-throughput :
        (r : Runner) (payload : List ℕ)
        → ((r.run_cfg.nas_path ≡ "") × (payload ≡ ping))
          ⊎ ((r.run_cfg.nas_path ≢ "")
              × (load_template read_file r.run_cfg.nas_path r.run_cfg.nas_hex ≡ ok payload))
        → r.run_cfg.mode ≡ "throughput"
        → is_pos r.run_cfg.step_duration ≡ true
        → r.run_cfg.output_csv ≢ ""
        → (rows : List Snapshot) × (run program r ≡ record {
          error = none;
          written = some (r.run_cfg.output_csv, rows);
          summary = last_row rows;
        })
          × (read_table read_time (write_csv format_time none write rows).records ≡ some rows)
          × (length rows ≡ step_count r.run_cfg)
          × (1 ≤ length rows)
          × IsAtSteps r.run_cfg now 0 rows
    run-throughput r payload t m d o =
        let (rows, e, l, n, s) =
          run_rows _ _ r payload (payload-program r.run_cfg payload t) m d o
            (write_csv_error format_time write takes) in
        let (_, reads) =
          read_table-write_csv read_time format_time write takes rows
            (IsAtSteps-IsTimed r.run_cfg 0 rows s) in
        (rows, e, reads, l, n, s)
