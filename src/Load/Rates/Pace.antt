-- ===== src/Load/Rates/Pace.antt =====
-- The rate that the workers reach together.
use native.Mathlib.Nat.{div-add-mod, mod-lt, mul-le-mul_left, mul_comm}
use proto_test.Base.{
  inl, inr, subst, ap, refl, ℕ, zero, suc, ◌+◌, ◌*◌, ◌/◌, ◌%◌, ◌≤◌, ◌<◌, ◌≡◌, ◌⊎◌, pos, pos_part,
  if◌then◌else◌, leb, false, arith,
}
use proto_test.Config.{RunConfig}
use proto_test.Load.Rates.{worker_count, max, pps_per_worker, tick_interval}

pub worker_count-pos : (cfg : RunConfig) → 1 ≤ worker_count cfg
unfolding worker_count
worker_count-pos cfg = ground arith

leb-suc_zero : (d : ℕ) → leb (suc d) 0 ≡ false
leb-suc_zero d = ground arith

tick :
    (q d r : ℕ)
    → q * d + r ≡ 1_000_000_000
    → r < q
    → let t = if leb d 0 then 1000 else d in
      (1 ≤ t) × (q ≤ 1_000_000_000 → (t * q ≤ 1_000_000_000) × (1_000_000_000 < t * q + q))
tick q zero r e h = ground arith
tick q (suc d) r e h = rw (leb-suc_zero d) (omega (arith, mul_comm q (suc d)))

pps_per_worker-pos : (cfg : RunConfig) → 1 ≤ pos_part (pps_per_worker cfg)
unfolding pps_per_worker max
pps_per_worker-pos cfg = ground arith

-- The interval between two ticks is at least a nanosecond, as `time.NewTicker` demands; for a
-- worker's rate of at most 10^9 a second, that many intervals fill a second but for less than one
-- nanosecond each.
pub tick_interval-bounds :
    (cfg : RunConfig)
    → let q = pos_part (pps_per_worker cfg) in
      let t = tick_interval cfg in
      (1 ≤ t) × (q ≤ 1_000_000_000 → (t * q ≤ 1_000_000_000) × (1_000_000_000 < t * q + q))
unfolding tick_interval
tick_interval-bounds cfg =
    let q = pos_part (pps_per_worker cfg) in
    tick q (1_000_000_000 / q) (1_000_000_000 % q) (div-add-mod 1_000_000_000 q)
      (mod-lt 1_000_000_000 (pps_per_worker-pos cfg))

-- With the rate p, w workers and t ns between two ticks of each: at most p workers keep the rate;
-- more send once a second each.
abbrev pub IsShared : (w p t : ℕ) → Type 0
IsShared w p t =
    ((w ≤ p) × (w * 1_000_000_000 < p * (t + 1)) × (p * t < w * (1_000_000_000 + t)))
    ⊎ ((p < w) × (t ≡ 1_000_000_000))

shared :
    (w q r t : ℕ)
    → r < w
    → 1 ≤ t
    → t * q ≤ 1_000_000_000
    → 1_000_000_000 < t * q + q
    → (w * 1_000_000_000 < (w * q + r) * (t + 1)) × ((w * q + r) * t < w * (1_000_000_000 + t))
shared w q r t small one below above =
    let a = mul-le-mul_left w above in
    let b = mul-le-mul_left w below in
    let c = mul-le-mul_left t small in (grind (arith, a), grind (arith, b, c))

rate_is_small : (w q r p : ℕ) → w * q + r ≡ p → r < w → p ≤ 1_000_000_000 → q ≤ 1_000_000_000
rate_is_small w q r p e small h =
    let one : 1 ≤ w = omega (arith, small) in let le = mul-le-mul_left q one in grind (arith, le)

-- The intervals of a second, at a worker's rate of q.
abbrev Fills : (t q : ℕ) → Type 0
Fills t q = q ≤ 1_000_000_000 → (t * q ≤ 1_000_000_000) × (1_000_000_000 < t * q + q)

max-suc : (q : ℕ) → pos_part (max (pos 1) (pos (suc q))) ≡ suc q
unfolding max
max-suc q = ground arith

-- A worker's rate is the w-th part q of p, but at least one.
one_of :
    (w p q r t : ℕ)
    → w * q + r ≡ p
    → r < w
    → p ≤ 1_000_000_000
    → let rate = pos_part (max (pos 1) (pos q)) in (1 ≤ t) × Fills t rate → IsShared w p t
unfolding max
one_of w p zero r t e small h (one, bounds) =
    let (below, above) = bounds (omega arith) in
    inr (omega (arith, e, small), omega (arith, below, above))
one_of w p (suc q) r t e small h (one, bounds) =
    let (below, above) =
      subst (Fills t) (max-suc q) bounds (rate_is_small w (suc q) r p e small h) in
    let (over, under) = shared w (suc q) r t small one below above in
    inl (
      subst (λ x. (w ≤ x) × (w * 1_000_000_000 < x * (t + 1)) × (x * t < w * (1_000_000_000 + t))) e
        (grind arith, over, under))

pps_per_worker-shared :
    (cfg : RunConfig) (p : ℕ)
    → cfg.pps ≡ pos p
    → pps_per_worker cfg ≡ max (pos 1) (pos (p / worker_count cfg))
unfolding pps_per_worker
pps_per_worker-shared cfg p h = rw h refl

-- With a rate of p packets a second, 1 ≤ p ≤ 10^9, and t ns between two ticks of each of the w
-- workers: where w ≤ p, workers that send at every tick keep the rate but for the rounding of the
-- interval, since w * 10^9 / t, their packets in a second, is less than p * (t + 1) / t, and in
-- 10^9 + t ns, a second and one tick more, they are due more than p packets, w * (10^9 + t) / t.
-- Where there are more workers than p, each ticks once a second, so that the rate is exceeded.
pub tick_interval-IsShared :
    (cfg : RunConfig) (p : ℕ)
    → cfg.pps ≡ pos p
    → 1 ≤ p
    → p ≤ 1_000_000_000
    → IsShared (worker_count cfg) p (tick_interval cfg)
tick_interval-IsShared cfg p h one small =
    let w = worker_count cfg in
    let rate = ap pos_part (pps_per_worker-shared cfg p h) in
    let (least, fills) = tick_interval-bounds cfg in
    one_of w p (p / w) (p % w) (tick_interval cfg) (div-add-mod p w)
      (mod-lt p (worker_count-pos cfg)) small (least, subst (Fills (tick_interval cfg)) rate fills)
