-- ===== src/Tests/Gnb.antt =====
-- A throughput run of the gNB client on its default settings.
use proto_test.Base.{
  ◌≤◌, ◌≡◌, refl, List, [], ◌∷◌, length, Option, some, none, ℤ, pos, Error, ℕ, true, inr,
}
use proto_test.Config.{default}
use proto_test.Metrics.{Call, Snapshot}
use proto_test.Load.Run.{Runner, Event, called}
use proto_test.Load.Sweep.{last_row, step_count}
use proto_test.Load.Sweep.Steps.{IsAtSteps}
use proto_test.App.Gnb.{run}
use proto_test.App.Gnb.Rows.{program, run-throughput}
use proto_test.Metrics.Csv.{Cell, write_csv}
use proto_test.Metrics.Csv.RoundTrip.{read_table}
use proto_test.Tests.Nas.{read_file, text-loaded}
use Prim.Native.String.{String}
use proto_test.Tests.{hundredths}

abbrev throughput_runner : Runner
throughput_runner = record {
  transport_cfg = default.transport;
  run_cfg = record default.run { mode = "throughput"; nas_path = "nas.hex"; nas_hex = true };
}

abbrev one_call : List Event
one_call = called (Call.tx 1) ∷ []

-- The only time is 2.
abbrev format_time : ℤ → String
format_time t = "1970-01-01T00:00:00.000000002Z"

abbrev read_time : String → Option ℤ
read_time s = some (pos 2)

abbrev take_all : ℕ → List Cell → Option Error
take_all i rec = none

run-throughput_example :
    (rows : List Snapshot) × (run
        (program hundredths
          (λ i. one_call)
          (λ i. pos 1)
          (λ i. pos 2)
          read_file
          format_time
          read_time
          (λ i. refl)
          take_all
          (λ i rec. refl))
        throughput_runner
      ≡ record { error = none; written = some ("summary.csv", rows); summary = last_row rows })
    × (read_table read_time (write_csv format_time none take_all rows).records ≡ some rows)
    × (length rows ≡ step_count throughput_runner.run_cfg)
    × (1 ≤ length rows)
    × IsAtSteps throughput_runner.run_cfg (λ i. pos 2) 0 rows
run-throughput_example =
    run-throughput hundredths (λ i. one_call) (λ i. pos 1) (λ i. pos 2) read_file format_time
      read_time (λ i. refl) take_all (λ i rec. refl) throughput_runner (0x7E ∷ (0x0A ∷ []))
      (inr (λ e. cc, text-loaded)) refl refl (λ e. cc)
