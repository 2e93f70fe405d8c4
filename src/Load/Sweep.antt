-- ===== src/Load/Sweep.antt =====
-- `RunThroughputSweep` of pkg/load/load.go: a latency run at each of a rising sequence of rates.
pub mod Steps
use proto_test.Base.{
  ℕ, zero, suc, ◌+◌, List, [], ◌∷◌, Option, none, some, if◌then◌else◌, ℤ, pos, pos_part, is_pos,
  ◌+ℤ◌, ◌*ℤ◌, wrap_i64, Error, Result, ok, err, message, wrap_step,
}
use proto_test.Config.{RunConfig}
use proto_test.Metrics.{Snapshot}
use proto_test.Load.Rates.{max}
use proto_test.Load.Run.{Runner}

-- `steps`, `startPPS` and `inc`
unfoldable pub step_count : RunConfig → ℕ
step_count cfg = if is_pos cfg.step_count then pos_part cfg.step_count else 1

unfoldable pub start_pps : RunConfig → ℤ
unfolding max
start_pps cfg = if is_pos cfg.step_start_pps then cfg.step_start_pps else max (pos 1) cfg.base_pps

unfoldable pub increment : RunConfig → ℤ
unfolding max
increment cfg = if is_pos cfg.step_increment then cfg.step_increment else max (pos 1) cfg.step_pps

-- `startPPS + i*inc`, on `int`
unfoldable pub pps_at : RunConfig → ℕ → ℤ
unfolding start_pps increment
pps_at cfg i = wrap_i64 (start_pps cfg +ℤ wrap_i64 (pos i *ℤ increment cfg))

-- `r2`
unfoldable pub runner_at : Runner → ℕ → Runner
unfolding pps_at
runner_at r i = record r {
  run_cfg = record r.run_cfg { pps = pps_at r.run_cfg i; duration = r.run_cfg.step_duration };
}

-- `rows[len(rows)-1]`, if there is a row.
unfoldable pub last_row : List Snapshot → Option Snapshot
last_row [] = none
last_row (s ∷ []) = some s
last_row (s ∷ (t ∷ rows)) = last_row (t ∷ rows)

abbrev pub keep_last : Option Snapshot → List Snapshot → List Snapshot
keep_last none all = all
keep_last (some s) all = s ∷ all

abbrev pub collected : List Snapshot → Result (List Snapshot) → Result (List Snapshot)
collected rows (ok all) = ok (keep_last (last_row rows) all)
collected rows (err e) = err e

-- What the steps from step `i` on return; `run` is what `RunLatency` returns to step `i`'s runner.
module _ (run : ℕ → Runner → Result (List Snapshot)) where
  abbrev pub after_step :
      ℕ → Runner → Result (List Snapshot) → Result (List Snapshot) → Result (List Snapshot)
  after_step i r (err e) rest = err (wrap_step (1 + i) r.run_cfg.pps e)
  after_step i r (ok rows) rest = collected rows rest

  unfoldable pub sweep_steps : Runner → ℕ → ℕ → Result (List Snapshot)
  unfolding last_row runner_at
  sweep_steps r i zero = ok []
  sweep_steps r i (suc n) =
      after_step i (runner_at r i) (run i (runner_at r i)) (sweep_steps r (suc i) n)

  unfoldable pub run_throughput_sweep : Runner → Result (List Snapshot)
  unfolding sweep_steps step_count
  run_throughput_sweep r =
      if is_pos r.run_cfg.step_duration
      then sweep_steps r 0 (step_count r.run_cfg)
      else err (message "step_duration must be > 0")
