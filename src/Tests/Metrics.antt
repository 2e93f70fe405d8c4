-- ===== src/Tests/Metrics.antt =====
-- The metrics on a few calls and samples.
use mathlib.Core.List.{Perm, Permᴰ}
use proto_test.Base.{◌%◌, ◌^◌, ◌≡◌, refl, List, [], ◌∷◌, length, pos, ◌≤ℤ◌, arith}
use proto_test.Metrics.{Call, empty, apply_all, snapshot, percentiles}
use proto_test.Metrics.Percentiles.{IsPercentile, percentiles-IsRank}
use proto_test.Metrics.Order.{snapshot-perm}
use proto_test.Metrics.Totals.{
  sum_of, sent, received, dropped, send_failed, sampled, snapshot-totals,
}
use proto_test.Tests.{hundredths}

abbrev calls : List Call
calls = Call.tx 1 ∷ (Call.latency (pos 5000) ∷ (Call.drop_timeout 1 ∷ []))

abbrev swapped : List Call
swapped = Call.latency (pos 5000) ∷ (Call.tx 1 ∷ (Call.drop_timeout 1 ∷ []))

calls-perm : Perm calls swapped
calls-perm = ∣ Permᴰ.swap refl refl ∣₁

snapshot-perm_example :
    snapshot hundredths (apply_all empty calls) "latency" "sctp" (pos 10) (pos 1) (pos 1) (pos 2)
    ≡ snapshot hundredths
        (apply_all empty swapped)
        "latency"
        "sctp"
        (pos 10)
        (pos 1)
        (pos 1)
        (pos 2)
snapshot-perm_example =
    snapshot-perm hundredths "latency" "sctp" (pos 10) (pos 1) (pos 1) (pos 2) empty calls swapped
      calls-perm

percentiles-IsRank_example :
    let vals = pos 30 ∷ (pos 10 ∷ (pos 20 ∷ [])) in
    let (p50, p95, p99) = percentiles hundredths vals in
    IsPercentile hundredths vals 50 p50
    × IsPercentile hundredths vals 95 p95
    × IsPercentile hundredths vals 99 p99
    × (p50 ≤ℤ p95)
    × (p95 ≤ℤ p99)
percentiles-IsRank_example =
    percentiles-IsRank hundredths (pos 30 ∷ (pos 10 ∷ (pos 20 ∷ []))) (omega arith)

snapshot-totals_example :
    let c = apply_all empty calls in
    let s = snapshot hundredths c "latency" "sctp" (pos 10) (pos 1) (pos 1) (pos 2) in
    (s.tx ≡ sum_of sent calls % 2 ^ 64)
    × (s.rx ≡ sum_of received calls % 2 ^ 64)
    × (s.drop_send_err ≡ sum_of send_failed calls % 2 ^ 64)
    × (s.drop ≡ sum_of dropped calls % 2 ^ 64)
    × (length c.latency_us ≡ sum_of sampled calls)
snapshot-totals_example =
    snapshot-totals hundredths calls "latency" "sctp" (pos 10) (pos 1) (pos 1) (pos 2)
