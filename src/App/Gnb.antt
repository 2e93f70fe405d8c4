-- ===== src/App/Gnb.antt =====
-- pkg/app/gnb.go: one run of the gNB client. Reading the template, the three kinds of run and writing
-- the file are arguments.
pub mod Rows
use Prim.Native.String.{String}
use text.Mathlib.Text.{◌==◌ as str_eq}
use proto_test.Base.{
  ℕ, not, List, [], ◌∷◌, Option, none, some, if◌then◌else◌, Error, message_text, Result, ok, err,
}
use proto_test.Transport
use proto_test.Config.{RunConfig}
use proto_test.Metrics.{Snapshot}
use proto_test.Load.Run.{Runner}
use proto_test.Load.Sweep.{last_row}

-- `[]byte("ping")`
abbrev pub ping : List ℕ
ping = 112 ∷ (105 ∷ (110 ∷ (103 ∷ [])))

-- What the run calls: `nas.LoadTemplate`, the methods of `load.Runner` and `metrics.WriteCSV`.
pub record Calls : Type 0 where
  pub load_template : RunConfig → Result (List ℕ)
  pub run_latency : Runner → List ℕ → Result (List Snapshot)
  pub run_throughput_sweep : Runner → List ℕ → Result (List Snapshot)
  pub run_flood : Runner → List ℕ → Result (List Snapshot)
  pub write_csv : String → List Snapshot → Option Error

-- What a run did: its error, the rows that it handed to `WriteCSV`, the row that it printed.
pub record Ran : Type 0 where
  pub error : Option Error
  pub written : Option (String × List Snapshot)
  pub summary : Option Snapshot

abbrev pub failed : Error → Ran
failed e = record { error = some e; written = none; summary = none }

unfoldable pub payload_of : Calls → RunConfig → Result (List ℕ)
payload_of k cfg = if not (str_eq cfg.nas_path "") then k.load_template cfg else ok ping

-- The `switch` on the mode.
unfoldable pub run_mode : Calls → Runner → List ℕ → Result (List Snapshot)
run_mode k r payload =
    if str_eq r.run_cfg.mode "latency"
    then k.run_latency r payload
    else if str_eq r.run_cfg.mode "throughput"
    then k.run_throughput_sweep r payload
    else if str_eq r.run_cfg.mode "flood"
    then k.run_flood r payload
    else err (message_text "unknown mode %q" r.run_cfg.mode)

-- After `WriteCSV`.
abbrev pub after_write : String → List Snapshot → Option Error → Ran
after_write path rows (some e) = record {
  error = some e;
  written = some (path, rows);
  summary = none;
}
after_write path rows none = record {
  error = none;
  written = some (path, rows);
  summary = last_row rows;
}

-- The end of `Run`, on the rows.
unfoldable pub report : Calls → RunConfig → List Snapshot → Ran
report k cfg rows =
    if not (str_eq cfg.output_csv "")
    then after_write cfg.output_csv rows (k.write_csv cfg.output_csv rows)
    else record { error = none; written = none; summary = last_row rows }

abbrev pub report_rows : Calls → RunConfig → Result (List Snapshot) → Ran
report_rows k cfg (err e) = failed e
report_rows k cfg (ok rows) = report k cfg rows

abbrev pub with_payload : Calls → Runner → Result (List ℕ) → Ran
with_payload k r (err e) = failed e
with_payload k r (ok payload) = report_rows k r.run_cfg (run_mode k r payload)

-- `GNBClient.Run`; the client is a runner's two configurations.
unfoldable pub run : Calls → Runner → Ran
unfolding payload_of run_mode report
run k r = with_payload k r (payload_of k r.run_cfg)
