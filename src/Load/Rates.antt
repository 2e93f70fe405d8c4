-- ===== src/Load/Rates.antt =====
-- How many workers a run has and how fast each sends.
pub mod Pace
use proto_test.Base.{
  ℕ, zero, suc, ◌+◌, ◌-◌, ◌/◌, ◌%◌, ◌^◌, Bool, true, false, ◌&&◌, Option, none, some, if◌then◌else◌,
  leb, ℤ, pos, negsuc, pos_part, is_pos, quot_ℤ, ltb_ℤ, Error, is_deadline_exceeded, as_net_timeout,
  ◌||◌,
}
use proto_test.Config.{RunConfig}

-- `max` of load.go
unfoldable pub max : ℤ → ℤ → ℤ
max a b = if ltb_ℤ b a then a else b

-- `workers := r.RunCfg.Workers; if workers <= 0 { workers = 1 }`
unfoldable pub worker_count : RunConfig → ℕ
worker_count cfg = if is_pos cfg.workers then pos_part cfg.workers else 1

-- `uint16(workerID % max(1, r.TransportCfg.ChannelCount))`
unfoldable pub channel_of : ℕ → ℤ → ℕ
unfolding max
channel_of worker_id channel_count = worker_id % pos_part (max (pos 1) channel_count) % 2 ^ 16

-- `max(1, r.RunCfg.PPS/workers)`
unfoldable pub pps_per_worker : RunConfig → ℤ
unfolding max
pps_per_worker cfg = max (pos 1) (quot_ℤ cfg.pps (worker_count cfg))

-- `time.Second / time.Duration(ppsPerWorker)`, and a microsecond if that is 0; in nanoseconds.
unfoldable pub tick_interval : RunConfig → ℕ
unfolding pps_per_worker
tick_interval cfg =
    if leb (1_000_000_000 / pos_part (pps_per_worker cfg)) 0
    then 1000
    else 1_000_000_000 / pos_part (pps_per_worker cfg)

-- The ticker of a latency worker: none if the rate is not limited.
unfoldable pub latency_ticker : RunConfig → Option ℕ
unfolding tick_interval
latency_ticker cfg =
    if cfg.latency_rate_limit && is_pos cfg.pps then some (tick_interval cfg) else none

unfoldable pub recv_timeout : RunConfig → ℤ
recv_timeout cfg = if is_pos cfg.recv_timeout then cfg.recv_timeout else pos 1_000_000_000

unfoldable pub is_timeout_error : Error → Bool
is_timeout_error e = if is_deadline_exceeded e then true else as_net_timeout e
