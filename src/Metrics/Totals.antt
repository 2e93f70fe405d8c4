-- ===== src/Metrics/Totals.antt =====
-- The counters of a row against the calls that were made.
use Prim.Native.String.{String}
use proto_test.Base.{
  ℕ, ◌+◌, ◌%◌, ◌^◌, ◌<◌, ◌≡◌, List, [], ◌∷◌, length, ℤ, quot_ℤ, Floats, arith, length-append,
}
use proto_test.Metrics.{Collector, Call, empty, apply, apply_all, snapshot}

-- The sum of one kind of amount over a list of calls.
unfoldable pub sum_of : (Call → ℕ) → List Call → ℕ
sum_of w [] = 0
sum_of w (k ∷ ks) = w k + sum_of w ks

abbrev pub sent : Call → ℕ
sent (Call.tx n) = n
sent _ = 0

abbrev pub received : Call → ℕ
received (Call.rx n) = n
received _ = 0

-- A drop of any of the five kinds.
abbrev pub dropped : Call → ℕ
dropped (Call.drop n) = n
dropped (Call.drop_timeout n) = n
dropped (Call.drop_send_err n) = n
dropped (Call.drop_decode n) = n
dropped (Call.drop_mismatch n) = n
dropped _ = 0

-- A packet that could not be sent.
abbrev pub send_failed : Call → ℕ
send_failed (Call.drop_send_err n) = n
send_failed _ = 0

abbrev pub sampled : Call → ℕ
sampled (Call.latency d) = 1
sampled _ = 0

abbrev all_drops : Collector → ℕ
all_drops c = c.drop_timeout + c.drop_send_err + c.drop_decode + c.drop_mismatch + c.drop_other

-- What one call adds, modulo 2 ^ 64.
record Adds (c d : Collector) (k : Call) : Type 0 where
  tx : d.tx ≡ (c.tx + sent k) % 2 ^ 64
  rx : d.rx ≡ (c.rx + received k) % 2 ^ 64
  failed : d.drop_send_err ≡ (c.drop_send_err + send_failed k) % 2 ^ 64
  drops : all_drops d % 2 ^ 64 ≡ (all_drops c + dropped k) % 2 ^ 64
  samples : length d.latency_us ≡ length c.latency_us + sampled k

-- The counters are uint64 values.
record IsBounded (c : Collector) : Type 0 where
  tx : c.tx < 2 ^ 64
  rx : c.rx < 2 ^ 64
  failed : c.drop_send_err < 2 ^ 64

apply-Adds : (c : Collector) (k : Call) → IsBounded c → Adds c (apply c k) k × IsBounded (apply c k)
unfolding apply
apply-Adds c (Call.latency d) b = omega (arith, length-append c.latency_us (quot_ℤ d 1000 ∷ []))
apply-Adds c k b = omega arith

record Totals (c d : Collector) (ks : List Call) : Type 0 where
  tx : d.tx ≡ (c.tx + sum_of sent ks) % 2 ^ 64
  rx : d.rx ≡ (c.rx + sum_of received ks) % 2 ^ 64
  failed : d.drop_send_err ≡ (c.drop_send_err + sum_of send_failed ks) % 2 ^ 64
  drops : all_drops d % 2 ^ 64 ≡ (all_drops c + sum_of dropped ks) % 2 ^ 64
  samples : length d.latency_us ≡ length c.latency_us + sum_of sampled ks

apply_all-Totals : (c : Collector) (ks : List Call) → IsBounded c → Totals c (apply_all c ks) ks
unfolding apply_all sum_of
apply_all-Totals c [] b = omega arith
apply_all-Totals c (k ∷ ks) b =
    let (a, b') = apply-Adds c k b in
    let t = apply_all-Totals (apply c k) ks b' in
    omega
      (arith, a.tx, a.rx, a.failed, a.drops, a.samples, t.tx, t.rx, t.failed, t.drops, t.samples)

-- After any calls on a fresh collector, the row's `tx` and `rx` are the sums of the amounts sent
-- and received, its `drop_send_err` is the sum of those that could not be sent and its `drop` that
-- of the amounts dropped for all five reasons together, each modulo 2^64, and the collector holds one sample for each latency call.
pub snapshot-totals :
    (fl : Floats) (ks : List Call) (mode transport : String) (target channels since now : ℤ)
    → let c = apply_all empty ks in
      let s = snapshot fl c mode transport target channels since now in
      (s.tx ≡ sum_of sent ks % 2 ^ 64)
      × (s.rx ≡ sum_of received ks % 2 ^ 64)
      × (s.drop_send_err ≡ sum_of send_failed ks % 2 ^ 64)
      × (s.drop ≡ sum_of dropped ks % 2 ^ 64)
      × (length c.latency_us ≡ sum_of sampled ks)
unfolding snapshot
snapshot-totals fl ks mode transport target channels since now =
    let t = apply_all-Totals empty ks (omega arith) in
    omega (arith, t.tx, t.rx, t.failed, t.drops, t.samples)
