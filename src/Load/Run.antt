-- ===== src/Load/Run.antt =====
-- `RunLatency`, `RunFlood` and `collectSnapshots` of pkg/load/load.go: the rows of a run, from the
-- calls that its workers make on the collector and the seconds that pass between them.
pub mod Account
use Prim.Native.String.{String}
use proto_test.Base.{ℕ, List, [], ◌∷◌, ◌++◌, ℤ, pos, Floats}
use proto_test.Transport
use proto_test.Config.{RunConfig}
use proto_test.Metrics.{Collector, Call, empty, apply, apply_all, Snapshot, snapshot}
use proto_test.Load.Rates.{worker_count}

-- `Runner`
pub record Runner : Type 0 where
  pub transport_cfg : Transport.Config
  pub run_cfg : RunConfig

-- What happens to the collector of a run: a worker makes a call, or the ticker of
-- `collectSnapshots` fires, with `time.Since(start)` and the time of the row.
pub data Event : Type 0 where
  called : Call → Event
  second : ℤ → ℤ → Event

unfoldable pub calls_of : List Event → List Call
calls_of [] = []
calls_of (called k ∷ es) = k ∷ calls_of es
calls_of (second since now ∷ es) = calls_of es

module _ (fl : Floats) where
  unfoldable pub collect_snapshots :
      Runner → Collector → String → ℤ → ℤ → List Event → List Snapshot
  collect_snapshots r collector mode pps channels [] = []
  collect_snapshots r collector mode pps channels (called k ∷ es) =
      collect_snapshots r (apply collector k) mode pps channels es
  collect_snapshots r collector mode pps channels (second since now ∷ es) =
      snapshot fl collector mode r.transport_cfg.type pps channels since now
      ∷ collect_snapshots r collector mode pps channels es

  -- `since` and `now` are those of the last row.
  unfoldable pub run_latency : Runner → List Event → ℤ → ℤ → List Snapshot
  unfolding calls_of collect_snapshots
  run_latency r es since now =
      let pps = r.run_cfg.pps in
      let workers = pos (worker_count r.run_cfg) in
      collect_snapshots r empty "latency" pps workers es
      ++ (snapshot fl (apply_all empty (calls_of es)) "latency" r.transport_cfg.type pps workers
            since now
          ∷ [])

  unfoldable pub run_flood : Runner → List Event → ℤ → List Snapshot
  unfolding calls_of collect_snapshots
  run_flood r es now =
      let pps = r.run_cfg.pps in
      let workers = pos (worker_count r.run_cfg) in
      collect_snapshots r empty "flood" pps workers es
      ++ (snapshot fl (apply_all empty (calls_of es)) "flood" r.transport_cfg.type pps workers
            r.run_cfg.duration now
          ∷ [])
