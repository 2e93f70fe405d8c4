-- ===== src/App/Amf/Loop.antt =====
-- The loops of the AMF: a session ends at its first failed receive, the server goes on after a failed
-- accept.
use proto_test.Base.{
  ℕ, ◌+◌, ◌≡◌, refl, ap, ◌∙◌, List, [], ◌∷◌, ◌++◌, Option, none, some, length, arith, Error, ok,
  err,
}
use proto_test.App.Amf.{
  handle_frame, Turn, cancelled, received, Handled, with_reply, handle_loop, handle_session,
  AcceptTurn, stopped, accepted, refused, run_loop,
}

-- The rounds that receive these buffers.
abbrev pub receives : List (List ℕ) → List Turn
receives [] = []
receives (raw ∷ raws) = received (ok raw) ∷ receives raws

abbrev pub prepend : Option (List ℕ) → List (List ℕ) → List (List ℕ)
prepend none bufs = bufs
prepend (some buf) bufs = buf ∷ bufs

-- The replies to a list of buffers, in order.
abbrev pub replies : List (List ℕ) → List (List ℕ)
replies [] = []
replies (raw ∷ raws) = prepend (handle_frame raw) (replies raws)

-- A round that ends the loop.
pub data Stop : Turn → Type 0 where
  at_cancel : Stop cancelled
  at_error : (e : Error) → Stop (received (err e))

abbrev pub closed_after : List (List ℕ) → Handled
closed_after bufs = record { sent = bufs; closes = 1; over = some tt }

Stop-closed : {t : Turn} (more : List Turn) → Stop t → handle_loop (t ∷ more) ≡ closed_after []
unfolding handle_loop
Stop-closed more at_cancel = refl
Stop-closed more (at_error e) = refl

with_reply-prepend :
    (o : Option (List ℕ)) (bufs : List (List ℕ))
    → with_reply o (closed_after bufs) ≡ closed_after (prepend o bufs)
with_reply-prepend none bufs = refl
with_reply-prepend (some buf) bufs = refl

-- A session answers every request that it receives, in order, and passes over all other messages
-- and what it cannot decode; at the first failed receive or at the end of the context it closes its
-- session, once, and handles nothing more.
pub handle_session-replies :
    (raws : List (List ℕ)) (t : Turn) (more : List Turn)
    → Stop t
    → handle_session (ok tt) (receives raws ++ (t ∷ more)) ≡ closed_after (replies raws)
unfolding handle_session handle_loop
handle_session-replies [] t more stop = Stop-closed more stop
handle_session-replies (raw ∷ raws) t more stop =
    ap (with_reply (handle_frame raw)) (handle_session-replies raws t more stop)
    ∙ with_reply-prepend (handle_frame raw) (replies raws)

-- A round of the server that neither ends it nor fails for good.
pub data GoesOn : AcceptTurn → Type 0 where
  new : (s : ℕ) → GoesOn (accepted s)
  failed_once : (e : Error) → GoesOn (refused e none)

abbrev pub AllGoOn : List AcceptTurn → Type 0
AllGoOn [] = Unit {0}
AllGoOn (t ∷ ts) = GoesOn t × AllGoOn ts

-- Failed handshakes and accepts do not end the server: after any rounds in which the context stays
-- alive, each of which accepts a session or fails, it goes on as if it had just started, its
-- listener as open or closed as it would be then, and each of the rounds handed on one session or
-- slept once.
pub run_loop-AllGoOn :
    (ts more : List AcceptTurn)
    → AllGoOn ts
    → let r = run_loop (ts ++ more) in
      let rest = run_loop more in
      (r.returns ≡ rest.returns)
      × (r.listener_closes ≡ rest.listener_closes)
      × (length r.sessions + r.sleeps ≡ length ts + (length rest.sessions + rest.sleeps))
unfolding run_loop
run_loop-AllGoOn [] more h = (refl, refl, omega arith)
run_loop-AllGoOn (stopped e ∷ ts) more h = elim h.0 [ ]
run_loop-AllGoOn (accepted s ∷ ts) more h =
    let (r, c, n) = run_loop-AllGoOn ts more h.1 in (r, c, omega (arith, n))
run_loop-AllGoOn (refused e none ∷ ts) more h =
    let (r, c, n) = run_loop-AllGoOn ts more h.1 in (r, c, omega (arith, n))
run_loop-AllGoOn (refused e (some x) ∷ ts) more h = elim h.0 [ ]
