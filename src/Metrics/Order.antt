-- ===== src/Metrics/Order.antt =====
-- The calls of the workers on one collector may take the lock in any order: the row is the same.
use Prim.Native.String.{String}
use Prim.Native.Char.{IsScalar}
use text.Mathlib.TextEquality.{IsScalar-prop}
use mathlib.Core.HLevel.{prop→set}
use mathlib.Core.Logic.{∥∥₁_elim}
use mathlib.Core.List.{Perm, Permᴰ}
use proto_test.Base.{
  ℕ, ◌≡◌, refl, sym, ap, ap₂, ◌∙◌, List, [], ◌∷◌, ℤ, quot_ℤ, Floats, arith, insert, sort,
  insert_comm, sort-append_one, length-sort,
}
use proto_test.Metrics.{Collector, Call, apply, apply_all, Snapshot, percentiles, snapshot}

-- The collector with its samples in order: all that a snapshot reads of it.
view : Collector → Collector
view c = record c { latency_us = sort c.latency_us }

-- The same calls on the view.
apply_view : Collector → Call → Collector
apply_view c (Call.latency d) = record c { latency_us = insert (quot_ℤ d 1000) c.latency_us }
apply_view c k = apply c k

view-apply : (c : Collector) (k : Call) → view (apply c k) ≡ apply_view (view c) k
unfolding view apply_view apply
view-apply c (Call.latency d) =
    λ i. record (view c) { latency_us = sort-append_one c.latency_us (quot_ℤ d 1000) i }
view-apply c _ = refl

apply_view_comm :
    (c : Collector) (j k : Call) → apply_view (apply_view c j) k ≡ apply_view (apply_view c k) j
unfolding apply_view apply
apply_view_comm c (Call.latency d) (Call.latency e) =
    λ i. record c { latency_us = insert_comm (quot_ℤ e 1000) (quot_ℤ d 1000) c.latency_us i }
apply_view_comm c j k = ground arith

apply_view_all : Collector → List Call → Collector
apply_view_all v [] = v
apply_view_all v (k ∷ ks) = apply_view_all (apply_view v k) ks

view-apply_all :
    (c : Collector) (ks : List Call) → view (apply_all c ks) ≡ apply_view_all (view c) ks
unfolding apply_all apply_view_all
view-apply_all c [] = refl
view-apply_all c (k ∷ ks) =
    view-apply_all (apply c k) ks ∙ ap (λ v. apply_view_all v ks) (view-apply c k)

apply_view_all-perm :
    {js ks : List Call} (v : Collector) → Permᴰ js ks → apply_view_all v js ≡ apply_view_all v ks
unfolding apply_view_all
apply_view_all-perm v Permᴰ.nil = refl
apply_view_all-perm v (Permᴰ.cons {a = j} {l₂ = l} e p) =
    apply_view_all-perm (apply_view v j) p ∙ ap (λ x. apply_view_all (apply_view v x) l) e
apply_view_all-perm v (Permᴰ.swap {a = j} {b = k} {l = l} e f) =
    ap (λ x. apply_view_all x l)
      (apply_view_comm v j k ∙ ap₂ (λ x y. apply_view (apply_view v x) y) f e)
apply_view_all-perm v (Permᴰ.trans p q) = apply_view_all-perm v p ∙ apply_view_all-perm v q

IsScalar-set : (n : ℕ) → IsSet (IsScalar n)
IsScalar-set n = prop→set (IsScalar-prop n)

Snapshot-set : IsSet Snapshot
Snapshot-set = hlevel IsScalar-set

module _ (fl : Floats) where
  percentiles-sort :
      (vals ws : List ℤ) → sort vals ≡ sort ws → percentiles fl vals ≡ percentiles fl ws
  unfolding percentiles
  percentiles-sort vals ws e = cc (length-sort vals, length-sort ws)

  module _ (mode transport : String) (target channels since now : ℤ) where
    snapshot-view :
        (c d : Collector)
        → view c ≡ view d
        → snapshot fl c mode transport target channels since now
          ≡ snapshot fl d mode transport target channels since now
    unfolding snapshot view
    snapshot-view c d e = cc (percentiles-sort c.latency_us d.latency_us (ap (λ v. v.latency_us) e))

    -- The row does not depend on the order in which the calls on the collector were made: any
    -- permutation of them gives the same snapshot.
    pub snapshot-perm :
        (c : Collector) (js ks : List Call)
        → Perm js ks
        → snapshot fl (apply_all c js) mode transport target channels since now
          ≡ snapshot fl (apply_all c ks) mode transport target channels since now
    snapshot-perm c js ks p = ∥∥₁_elim p (Snapshot-set _ _) λ d.
        snapshot-view _ _
          (view-apply_all c js ∙ apply_view_all-perm (view c) d ∙ sym (view-apply_all c ks))
