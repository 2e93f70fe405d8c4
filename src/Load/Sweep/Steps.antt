-- ===== src/Load/Sweep/Steps.antt =====
-- The rows of a sweep: one for each step, at rates that rise by the increment.
use proto_test.Base.{
  ℕ, zero, suc, ◌+◌, ◌*◌, ◌^◌, ◌≤◌, ◌<◌, ◌≡◌, refl, ◌⊎◌, inl, inr, Bool-cases, List, [], ◌∷◌, ◌++◌,
  length, some, true, false, ℤ, pos, pos_part, is_pos, ◌+ℤ◌, ◌*ℤ◌, wrap_i64, pos_add, pos_mul,
  wrap_i64-small, Floats, Result, ok, err, message, arith,
}
use proto_test.Config.{RunConfig}
use proto_test.Metrics.{Snapshot, snapshot}
use proto_test.Load.Rates.{max}
use proto_test.Load.Run.{Runner, Event, run_latency}
use proto_test.Load.Sweep.{
  step_count, start_pps, increment, pps_at, runner_at, last_row, sweep_steps, run_throughput_sweep,
}

start_pps-pos :
    (cfg : RunConfig)
    → start_pps cfg ≡ pos (pos_part (start_pps cfg)) × (1 ≤ pos_part (start_pps cfg))
unfolding start_pps max
start_pps-pos cfg = ground arith

increment-pos :
    (cfg : RunConfig)
    → increment cfg ≡ pos (pos_part (increment cfg)) × (1 ≤ pos_part (increment cfg))
unfolding increment max
increment-pos cfg = ground arith

sum_in_range :
    (s d i : ℕ)
    → s + i * d < 2 ^ 63
    → wrap_i64 (pos s +ℤ wrap_i64 (pos i *ℤ pos d)) ≡ pos (s + i * d)
sum_in_range s d i h =
    (rw (pos_mul i d) (
      rw (wrap_i64-small (i * d) (omega arith))
        (rw (pos_add s (i * d)) (wrap_i64-small (s + i * d) h))))

sum_of_parts :
    (x y : ℤ) (s d i : ℕ)
    → x ≡ pos s
    → y ≡ pos d
    → s + i * d < 2 ^ 63
    → wrap_i64 (x +ℤ wrap_i64 (pos i *ℤ y)) ≡ pos (s + i * d)
sum_of_parts x y s d i e f h = rw (e, f) (sum_in_range s d i h)

-- Within 63 bits the rate of step `i` is the first rate and `i` times the increment, both positive,
-- so that each step's rate is above the one before it.
pub pps_at-eq :
    (cfg : RunConfig) (i : ℕ)
    → let s = pos_part (start_pps cfg) in
      let d = pos_part (increment cfg) in
      s + i * d < 2 ^ 63 → (pps_at cfg i ≡ pos (s + i * d)) × (1 ≤ s) × (1 ≤ d)
unfolding pps_at
pps_at-eq cfg i h =
    let (s, s') = start_pps-pos cfg in
    let (d, d') = increment-pos cfg in (sum_of_parts _ _ _ _ i s d h, s', d')

-- The row of step `i`, with the time at its end, and those after it.
abbrev pub IsAtSteps : RunConfig → (ℕ → ℤ) → ℕ → List Snapshot → Type 0
IsAtSteps cfg now i [] = Unit {0}
IsAtSteps cfg now i (s ∷ rows) =
    (s.target_pps ≡ pps_at cfg i)
    × (s.mode ≡ "latency")
    × (s.timestamp ≡ now i)
    × IsAtSteps cfg now (suc i) rows

last_row-append : (rows : List Snapshot) (s : Snapshot) → last_row (rows ++ s ∷ []) ≡ some s
unfolding last_row
last_row-append [] s = refl
last_row-append (t ∷ []) s = refl
last_row-append (t ∷ (u ∷ rows)) s = last_row-append (u ∷ rows) s

module _ (fl : Floats) (es : ℕ → List Event) (since now : ℕ → ℤ) where
  -- `RunLatency` of step `i`
  abbrev pub latency_run : ℕ → Runner → Result (List Snapshot)
  latency_run i r = ok (run_latency fl r (es i) (since i) (now i))

  last_row-run_latency :
      (r : Runner) (i : ℕ)
      → (s : Snapshot) × (last_row (run_latency fl (runner_at r i) (es i) (since i) (now i))
          ≡ some s)
        × (s.target_pps ≡ pps_at r.run_cfg i)
        × (s.mode ≡ "latency")
        × (s.timestamp ≡ now i)
  unfolding run_latency runner_at snapshot
  last_row-run_latency r i = (_, last_row-append _ _, refl, refl, refl)

  sweep_steps-rows :
      (r : Runner) (i n : ℕ)
      → (rows : List Snapshot) × (sweep_steps latency_run r i n ≡ ok rows)
        × (length rows ≡ n)
        × IsAtSteps r.run_cfg now i rows
  unfolding sweep_steps
  sweep_steps-rows r i zero = ([], refl, refl, tt)
  sweep_steps-rows r i (suc n) =
      let (rows, e, l, k) = sweep_steps-rows r (suc i) n in
      let (s, f, t, m, u) = last_row-run_latency r i in
      (s ∷ rows, rw (e, f) refl, omega (arith, l), (t, m, u, k))

  pub positive_sweep :
      (r : Runner)
      → is_pos r.run_cfg.step_duration ≡ true
      → (rows : List Snapshot) × (run_throughput_sweep latency_run r ≡ ok rows)
        × (length rows ≡ step_count r.run_cfg)
        × (1 ≤ length rows)
        × IsAtSteps r.run_cfg now 0 rows
  unfolding run_throughput_sweep step_count
  positive_sweep r h =
      let (rows, e, l, k) = sweep_steps-rows r 0 (step_count r.run_cfg) in
      (rows, rw (h, e) refl, l, ground (arith, l), k)

  -- A sweep fails if the duration of its steps is not positive, and only then; otherwise it has one
  -- row for each step, that of step `i` from a latency run at the rate of step `i`, with the time at
  -- which that run ended.
  pub run_throughput_sweep-rows :
      (r : Runner)
      → ((is_pos r.run_cfg.step_duration ≡ false)
          × (run_throughput_sweep latency_run r ≡ err (message "step_duration must be > 0")))
        ⊎ ((is_pos r.run_cfg.step_duration ≡ true)
            × ((rows : List Snapshot) × (run_throughput_sweep latency_run r ≡ ok rows)
                × (length rows ≡ step_count r.run_cfg)
                × (1 ≤ length rows)
                × IsAtSteps r.run_cfg now 0 rows))
  unfolding run_throughput_sweep
  run_throughput_sweep-rows r = elim (Bool-cases (is_pos r.run_cfg.step_duration)) [
    | inl h ↦ inr (h, positive_sweep r h)
    | inr h ↦ inl (h, rw h refl)
  ]
