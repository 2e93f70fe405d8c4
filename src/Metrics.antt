-- ===== src/Metrics.antt =====
-- pkg/metrics/metrics.go: the counters and latency samples of a run, and the rows made from them.
-- A method takes the collector before the call and returns the one after it; the mutex makes each
-- method one step, so a run is a list of calls in the order in which they took the lock.
pub mod Order
pub mod Totals
pub mod Percentiles
pub mod Csv
use Prim.Native.String.{String}
use proto_test.Base.{
  ℕ, ◌+◌, ◌-◌, ◌%◌, ◌^◌, List, [], ◌∷◌, ◌++◌, ltb, leb, if◌then◌else◌, length, get_or, ℤ, pos,
  negsuc, quot_ℤ, is_pos, ltb_ℤ, leb_ℤ, Floats, sort,
}

pub record Collector : Type 0 where
  pub tx : ℕ  -- uint64, as the other counters
  pub rx : ℕ
  pub drop_timeout : ℕ
  pub drop_send_err : ℕ
  pub drop_decode : ℕ
  pub drop_mismatch : ℕ
  pub drop_other : ℕ
  pub latency_us : List ℤ

-- `&Collector{}`
abbrev pub empty : Collector
empty = record {
  tx = 0;
  rx = 0;
  drop_timeout = 0;
  drop_send_err = 0;
  drop_decode = 0;
  drop_mismatch = 0;
  drop_other = 0;
  latency_us = [];
}

-- `+=` on uint64.
abbrev pub add64 : ℕ → ℕ → ℕ
add64 a b = (a + b) % 2 ^ 64

unfoldable pub add_tx : ℕ → Collector → Collector
add_tx n c = record c { tx = add64 c.tx n }

unfoldable pub add_rx : ℕ → Collector → Collector
add_rx n c = record c { rx = add64 c.rx n }

unfoldable pub add_drop : ℕ → Collector → Collector
add_drop n c = record c { drop_other = add64 c.drop_other n }

unfoldable pub add_drop_timeout : ℕ → Collector → Collector
add_drop_timeout n c = record c { drop_timeout = add64 c.drop_timeout n }

unfoldable pub add_drop_send_err : ℕ → Collector → Collector
add_drop_send_err n c = record c { drop_send_err = add64 c.drop_send_err n }

unfoldable pub add_drop_decode : ℕ → Collector → Collector
add_drop_decode n c = record c { drop_decode = add64 c.drop_decode n }

unfoldable pub add_drop_mismatch : ℕ → Collector → Collector
add_drop_mismatch n c = record c { drop_mismatch = add64 c.drop_mismatch n }

-- `d.Microseconds()` is the nanoseconds divided by 1000, towards zero.
unfoldable pub add_latency : ℤ → Collector → Collector
add_latency d c = record c { latency_us = c.latency_us ++ (quot_ℤ d 1000 ∷ []) }

-- A call of one of the methods above.
pub data Call : Type 0 where
  tx rx drop drop_timeout drop_send_err drop_decode drop_mismatch : ℕ → Call
  latency : ℤ → Call

unfoldable pub apply : Collector → Call → Collector
unfolding add_tx add_rx add_drop add_drop_timeout add_drop_send_err add_drop_decode
    add_drop_mismatch add_latency
apply c (Call.tx n) = add_tx n c
apply c (Call.rx n) = add_rx n c
apply c (Call.drop n) = add_drop n c
apply c (Call.drop_timeout n) = add_drop_timeout n c
apply c (Call.drop_send_err n) = add_drop_send_err n c
apply c (Call.drop_decode n) = add_drop_decode n c
apply c (Call.drop_mismatch n) = add_drop_mismatch n c
apply c (Call.latency d) = add_latency d c

unfoldable pub apply_all : Collector → List Call → Collector
unfolding apply
apply_all c [] = c
apply_all c (k ∷ ks) = apply_all (apply c k) ks

pub record Snapshot : Type 0 where
  pub timestamp : ℤ
  pub mode : String
  pub transport : String
  pub target_pps : ℤ
  pub achieved_pps : ℤ
  pub tx : ℕ
  pub rx : ℕ
  pub drop : ℕ
  pub drop_timeout : ℕ
  pub drop_send_err : ℕ
  pub drop_decode : ℕ
  pub drop_mismatch : ℕ
  pub drop_other : ℕ
  pub p50_us : ℤ
  pub p95_us : ℤ
  pub p99_us : ℤ
  pub channels : ℤ

-- `i < 0` and `i >= len(cp)`, for a slice that is not empty.
unfoldable pub clamp_index : ℕ → ℤ → ℕ
clamp_index n (negsuc i) = 0
clamp_index n (pos i) = if leb n i then n - 1 else i

module _ (fl : Floats) where
  open fl use {Float, of_ℕ, mul, div, trunc, seconds, half, ninety_five, ninety_nine}

  -- `idx`
  unfoldable pub index : ℕ → Float → ℕ
  unfolding clamp_index
  index n p = clamp_index n (trunc (mul (of_ℕ (n - 1)) p))

  unfoldable pub percentiles : List ℤ → ℤ × ℤ × ℤ
  percentiles vals =
      if leb (length vals) 0
      then (pos 0, pos 0, pos 0)
      else (let cp = sort vals in
          let n = length cp in
          (
            get_or cp (index n half) (pos 0),
            get_or cp (index n ninety_five) (pos 0),
            get_or cp (index n ninety_nine) (pos 0),
          ))

  -- `now` is what `time.Now()` returns.
  unfoldable pub snapshot : Collector → String → String → ℤ → ℤ → ℤ → ℤ → Snapshot
  snapshot c mode transport target_pps channels since now = record {
    timestamp = now;
    mode = mode;
    transport = transport;
    target_pps = target_pps;
    achieved_pps = if is_pos since then trunc (div (of_ℕ c.rx) (seconds since)) else pos 0;
    tx = c.tx;
    rx = c.rx;
    drop =
        add64 (add64 (add64 (add64 c.drop_timeout c.drop_send_err) c.drop_decode) c.drop_mismatch)
          c.drop_other;
    drop_timeout = c.drop_timeout;
    drop_send_err = c.drop_send_err;
    drop_decode = c.drop_decode;
    drop_mismatch = c.drop_mismatch;
    drop_other = c.drop_other;
    p50_us = (percentiles c.latency_us).0;
    p95_us = (percentiles c.latency_us).1;
    p99_us = (percentiles c.latency_us).2;
    channels = channels;
  }
