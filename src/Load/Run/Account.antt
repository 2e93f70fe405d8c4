-- ===== src/Load/Run/Account.antt =====
-- The rows of a run against what its workers did.
use Prim.Native.String.{String}
use mathlib.Core.Logic.{∥∥₁_elim}
use mathlib.Core.List.{Perm, Permᴰ}
use proto_test.Base.{
  ℕ, ◌+◌, ◌^◌, ◌<◌, ◌≡◌, refl, ap, ◌∙◌, List, [], ◌∷◌, ◌++◌, length, ℤ, pos, Floats, arith,
}
use proto_test.Metrics.{Collector, Call, Snapshot, empty, apply, apply_all}
use proto_test.Metrics.Totals.{
  sum_of, sent, received, dropped, send_failed, sampled, snapshot-totals,
}
use proto_test.Load.Rates.{worker_count}
use proto_test.Load.Attempt.{latency_step, flood_step}
use proto_test.Load.Attempt.Counts.{Crew, crew_calls, crew_attempts, crew-Settles, crew-Floods}
use proto_test.Load.Run.{
  Runner, Event, called, second, calls_of, collect_snapshots, run_latency, run_flood,
}

sum_of-permᴰ : (w : Call → ℕ) (js ks : List Call) → Permᴰ js ks → sum_of w js ≡ sum_of w ks
unfolding sum_of
sum_of-permᴰ w _ _ Permᴰ.nil = refl
sum_of-permᴰ w _ _ (Permᴰ.cons {l₁ = l} {l₂ = m} e p) = cc (e, sum_of-permᴰ w l m p)
sum_of-permᴰ w _ _ (Permᴰ.swap {l = l} e f) = omega (arith, ap w e, ap w f)
sum_of-permᴰ w _ _ (Permᴰ.trans p q) = sum_of-permᴰ w _ _ p ∙ sum_of-permᴰ w _ _ q

ℕ_IsSet : IsSet ℕ
ℕ_IsSet = hlevel

sum_of-perm : (w : Call → ℕ) (js ks : List Call) → Perm js ks → sum_of w js ≡ sum_of w ks
sum_of-perm w js ks p = ∥∥₁_elim p (ℕ_IsSet _ _) (sum_of-permᴰ w js ks)

-- The seconds that pass during a run.
unfoldable pub seconds_in : List Event → ℕ
seconds_in [] = 0
seconds_in (called k ∷ es) = seconds_in es
seconds_in (second since now ∷ es) = 1 + seconds_in es

length-collect_snapshots :
    (fl : Floats) (r : Runner) (c : Collector) (mode : String) (pps channels : ℤ) (es : List Event)
    → length (collect_snapshots fl r c mode pps channels es) ≡ seconds_in es
unfolding collect_snapshots seconds_in
length-collect_snapshots fl r c mode pps channels [] = refl
length-collect_snapshots fl r c mode pps channels (called k ∷ es) =
    length-collect_snapshots fl r (apply c k) mode pps channels es
length-collect_snapshots fl r c mode pps channels (second since now ∷ es) =
    omega (arith, length-collect_snapshots fl r c mode pps channels es)

-- A latency run whose workers make fewer than 2^64 requests, and whose calls on the collector are
-- theirs in any order, returns one row for each second and a last row in which `tx` and
-- `drop_send_err` together count the requests, so do `rx` and `drop`, and `rx` is the number of
-- latency samples.
pub run_latency-accounts :
    (fl : Floats) (r : Runner) (payload : List ℕ) (crew : Crew) (es : List Event) (since now : ℤ)
    → crew_attempts crew < 2 ^ 64
    → Perm (calls_of es) (crew_calls (λ ch. latency_step ch payload) crew)
    → (rows : List Snapshot) × (last : Snapshot) × (run_latency fl r es since now
        ≡ rows ++ last ∷ [])
      × (length rows ≡ seconds_in es)
      × (last.tx + last.drop_send_err ≡ crew_attempts crew)
      × (last.rx + last.drop ≡ crew_attempts crew)
      × (length (apply_all empty (calls_of es)).latency_us ≡ last.rx)
unfolding run_latency
run_latency-accounts fl r payload crew es since now few p =
    let s = crew-Settles payload crew in
    let at = λ (w : Call → ℕ). sum_of-perm w _ _ p in
    let t =
      snapshot-totals fl (calls_of es) "latency" r.transport_cfg.type r.run_cfg.pps
        (pos (worker_count r.run_cfg)) since now in
    (
      _,
      _,
      refl,
      length-collect_snapshots fl r empty _ _ _ es,
      omega (arith, few, t, s, at sent, at send_failed),
      omega (arith, few, t, s, at received, at dropped),
      omega (arith, few, t, s, at received, at sampled, at dropped),
    )

-- A flood whose workers send fewer than 2^64 packets, and whose calls on the collector are theirs in
-- any order, returns one row for each second and a last row in which `tx` and `drop` together count
-- the packets and `rx` is 0.
pub run_flood-accounts :
    (fl : Floats) (r : Runner) (payload : List ℕ) (crew : Crew) (es : List Event) (now : ℤ)
    → crew_attempts crew < 2 ^ 64
    → Perm (calls_of es) (crew_calls (λ ch. flood_step ch payload) crew)
    → (rows : List Snapshot) × (last : Snapshot) × (run_flood fl r es now ≡ rows ++ last ∷ [])
      × (length rows ≡ seconds_in es)
      × (last.tx + last.drop ≡ crew_attempts crew)
      × (last.rx ≡ 0)
unfolding run_flood
run_flood-accounts fl r payload crew es now few p =
    let s = crew-Floods payload crew in
    let at = λ (w : Call → ℕ). sum_of-perm w _ _ p in
    let t =
      snapshot-totals fl (calls_of es) "flood" r.transport_cfg.type r.run_cfg.pps
        (pos (worker_count r.run_cfg)) r.run_cfg.duration now in
    (
      _,
      _,
      refl,
      length-collect_snapshots fl r empty _ _ _ es,
      omega (arith, few, t, s, at sent, at dropped),
      omega (arith, few, t, s, at received, at dropped),
    )
