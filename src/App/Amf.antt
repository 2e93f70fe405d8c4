-- ===== src/App/Amf.antt =====
-- pkg/app/amf.go: the AMF accepts sessions, and answers the requests of each.
pub mod Echo
pub mod Loop
use proto_test.Base.{
  ℕ, Bool, true, false, suc, List, [], ◌∷◌, Option, none, some, ◌==◌, if◌then◌else◌, Error, Result,
  ok, err,
}
use proto_test.Wire.{Frame, decode, encode_or_nil, msg_req, msg_resp, msg_flood}

abbrev pub response : Frame → Frame
response frm = record frm { msg_type = msg_resp }

-- The `switch` of `handleSession`: the buffer that it sends, if any. A frame that cannot be decoded
-- is passed over.
unfoldable pub answer : Result Frame → Option (List ℕ)
answer (err e) = none
answer (ok frm) =
    if frm.msg_type == msg_req
    then some (encode_or_nil (response frm))
    else if frm.msg_type == msg_flood
    then none
    else none

-- The body of the loop of `handleSession` on what it received.
unfoldable pub handle_frame : List ℕ → Option (List ℕ)
unfolding answer
handle_frame raw = answer (decode raw)

-- One round of the loop: the context is done, or `Recv` returned.
pub data Turn : Type 0 where
  cancelled : Turn
  received : Result (List ℕ) → Turn

-- What a session did: the buffers it sent, in order, how often it closed its session, and whether
-- the loop has ended.
pub record Handled : Type 0 where
  pub sent : List (List ℕ)
  pub closes : ℕ
  pub over : Option (Unit {0})

abbrev pub ended : Handled
ended = record { sent = []; closes = 1; over = some tt }

abbrev pub running : Handled
running = record { sent = []; closes = 0; over = none }

abbrev pub with_reply : Option (List ℕ) → Handled → Handled
with_reply none h = h
with_reply (some buf) h = record h { sent = buf ∷ h.sent }

-- The loop of `handleSession`; what `Send` returns is dropped.
unfoldable pub handle_loop : List Turn → Handled
handle_loop [] = running
handle_loop (cancelled ∷ ts) = ended
handle_loop (received (err e) ∷ ts) = ended
handle_loop (received (ok raw) ∷ ts) = with_reply (handle_frame raw) (handle_loop ts)

-- `handleSession`, with the result of `AcceptChannel`; `defer sess.Close()` runs at its end.
unfoldable pub handle_session : Result (Unit {0}) → List Turn → Handled
unfolding handle_loop
handle_session (err e) ts = ended
handle_session (ok _) ts = handle_loop ts

-- One round of `Run`: the context is done before it, or `Accept` returned, with `ctx.Err()` then.
pub data AcceptTurn : Type 0 where
  stopped : Error → AcceptTurn
  accepted : ℕ → AcceptTurn
  refused : Error → Option Error → AcceptTurn

-- `Run`: what it returns (nothing while it runs), the sessions that it handed to `handleSession`,
-- how often it slept, whether it waited for its sessions, and how often it closed its listener.
pub record Served : Type 0 where
  pub returns : Option (Option Error)
  pub sessions : List ℕ
  pub sleeps : ℕ
  pub waited : Bool
  pub listener_closes : ℕ

abbrev pub serving : Served
serving = record { returns = none; sessions = []; sleeps = 0; waited = false; listener_closes = 0 }

-- `wg.Wait()`, the return, and the deferred `ln.Close()`.
abbrev pub finished : Option Error → Served
finished r = record serving { returns = some r; waited = true; listener_closes = 1 }

unfoldable pub run_loop : List AcceptTurn → Served
run_loop [] = serving
run_loop (stopped e ∷ ts) = finished (some e)
run_loop (accepted s ∷ ts) = let r = run_loop ts in record r { sessions = s ∷ r.sessions }
run_loop (refused e (some x) ∷ ts) = finished none
run_loop (refused e none ∷ ts) = let r = run_loop ts in record r { sleeps = suc r.sleeps }

-- `AMFServer.Run`, with the result of `backend.Listen`.
unfoldable pub run : Result (Unit {0}) → List AcceptTurn → Served
unfolding run_loop
run (err e) ts = record serving { returns = some (some e) }
run (ok _) ts = run_loop ts
