-- ===== src/Load/Open/Closed.antt =====
-- A worker of the load generator closes the connection that `open` gave it.
use proto_test.Base.{
  ℕ, ◌≡◌, ◌⊎◌, refl, ◌∙◌, inl, inr, List, [], ◌∷◌, Option, some, true, false, Result, ok, err,
}
use proto_test.Transport.{Config}
use proto_test.Metrics.{Call}
use proto_test.Transport.Kernel.Fds.{closed, M, ◌>>=◌, done, failed, waits, replay}
use proto_test.Transport.Kernel.Fds.Owned.{replay-append}
use proto_test.Transport.Kernel.Session.{DialAnswers}
use proto_test.Transport.Sctp.Session.{Race}
use proto_test.Transport.Sctp.Session.Accounts.{Leaves}
use proto_test.Transport.Backend.{World, Session, dial, open_channel}
use proto_test.Transport.Backend.Accounts.{connection, lost_by_dial}
use proto_test.Load.Open.{or_close_session, open_session}
use proto_test.Load.Open.Fresh.{Yields, IsFresh, dial-Yields}
use proto_test.Load.Open.Leaves.{held, close_one, open-Leaves}
use proto_test.Load.Attempt.{Attempt, Round, over, goes, Worked, work, worker}

-- A worker that has found the context done.
abbrev pub IsOver : List Round → Type 0
IsOver [] = ⊥
IsOver (over ∷ rs) = Unit {0}
IsOver (goes a ∷ rs) = IsOver rs

abbrev IsWaiting : M (Session × ℕ) → Type 0
IsWaiting (waits, l) = Unit {0}
IsWaiting (done r, l) = ⊥
IsWaiting (failed e, l) = ⊥

abbrev AnyFresh : Session × ℕ → Type 0
AnyFresh r = IsFresh r.0

channel-Yields :
    (m : M Session) (channel : Session → Result ℕ)
    → Yields IsFresh m.0
    → Yields AnyFresh (m >>= λ s. or_close_session s (channel s)).0
channel-Yields (failed e, l) channel fresh = tt
channel-Yields (waits, l) channel fresh = tt
channel-Yields (done s, l) channel fresh = by_channel (channel s)
  where
    by_channel : (r : Result ℕ) → Yields AnyFresh ((done s, l) >>= λ s'. or_close_session s' r).0
    by_channel (ok id) = unfold or_close_session in fresh
    by_channel (err e) = unfold or_close_session in tt

work-returns : (step : Attempt → List Call) (rs : List Round) → IsOver rs → (work step rs).1 ≡ true
unfolding work
work-returns step [] h = elim h [ ]
work-returns step (over ∷ rs) h = refl
work-returns step (goes a ∷ rs) h = work-returns step rs h

-- The worker returned and left only these connections open, or it has not returned.
abbrev pub Closes : List ℕ → M (Session × ℕ) → Worked → Type 0
Closes others m w =
    ((w.returned ≡ true) × (replay [] w.log ≡ some others)) ⊎ (IsWaiting m × (w.returned ≡ false))

worker-Closes :
    (step : ℕ → Attempt → List Call) (others : List ℕ) (m : M (Session × ℕ)) (rs : List Round)
    → Leaves held others m
    → Yields AnyFresh m.0
    → IsOver rs
    → Closes others m (worker step m rs)
unfolding worker
worker-Closes step others (failed e, l) rs h fresh is_over = inl (refl, h)
worker-Closes step others (waits, l) rs h fresh is_over = inr (tt, refl)
worker-Closes step others (done (s, channel), l) rs h fresh is_over =
    let e = work-returns (step channel) rs is_over in
    inl
      (e, rw e (rw fresh (replay-append [] l (closed (connection s) ∷ []) h ∙ close_one s others)))

-- A worker of the load generator whose context is done at some round returns, unless it waits for
-- `open`, that is for `Dial`; and when it returns, each connection that `Dial` opened for it has been closed, once:
-- by `Dial`, by `open` where there is no channel, or by the worker itself. The only exception are
-- connections of the SCTP library that come after the context has ended `Dial`: those stay open.
pub worker-IsClosed :
    (w : World) (cfg : Config) (k : DialAnswers) (race : Option w.sctp.Addr → w.sctp.Addr → Race)
    (stream : Result ℕ) (id : ℕ) (step : ℕ → Attempt → List Call) (rs : List Round)
    → IsOver rs
    → let m = open_session w cfg k race stream id in
      Closes (lost_by_dial w cfg race) m (worker step m rs)
worker-IsClosed w cfg k race stream id step rs is_over =
    worker-Closes step (lost_by_dial w cfg race) (open_session w cfg k race stream id) rs
      (open-Leaves w cfg k race stream id)
      (unfold open_session in
        channel-Yields (dial w cfg k race) (λ s. open_channel s stream id)
          (dial-Yields w cfg k race))
      is_over
