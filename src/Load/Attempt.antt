-- ===== src/Load/Attempt.antt =====
-- One request of a latency worker, one packet of a flood worker (load.go), and the worker's loop.
-- What a worker does to the collector is the list of calls that it makes.
pub mod Counts
pub mod Reply
use proto_test.Base.{
  ℕ, List, [], ◌∷◌, ◌++◌, map, Bool, not, ◌||◌, ◌==◌, if◌then◌else◌, ℤ, pos, ◌-ℤ◌, saturate, Error,
  Result, ok, err,
}
use proto_test.Wire.{Frame, decode, encode_or_nil, msg_req, msg_resp, msg_flood}
use proto_test.Metrics.{Call}
use proto_test.Load.Rates.{is_timeout_error}
use proto_test.Transport.Kernel.Fds.{FdEvent, closed, M, done, failed, waits}
use proto_test.Transport.Backend.{Session, session_close}

-- What one round of a worker meets: the number that `seq.Add(1)` gave, the clock before the frame is
-- made, what `ch.Send` answers to a buffer, what `ch.Recv` returns, and the clock after that.
pub record Attempt : Type 0 where
  pub next : ℕ  -- uint64
  pub now : ℤ
  pub send : List ℕ → Result (Unit {0})
  pub reply : Result (List ℕ)
  pub later : ℤ

-- The frame of a round: `ch.ID()` and the payload are those of the worker.
unfoldable pub frame_of : ℕ → ℕ → List ℕ → Attempt → Frame
frame_of msg_type channel payload a = record {
  msg_type = msg_type;
  seq_id = a.next;
  send_ts_ns = a.now;
  channel_id = channel;
  payload = payload;
}

-- `time.Since(time.Unix(0, ts))`
abbrev pub since : ℤ → ℤ → ℤ
since later ts = saturate (later -ℤ ts)

-- What follows `wire.Decode`.
unfoldable pub settle_frame : ℕ → ℤ → Result Frame → List Call
settle_frame next later (err e) = Call.drop_decode 1 ∷ []
settle_frame next later (ok resp) =
    if not (resp.msg_type == msg_resp) || not (resp.seq_id == next)
    then Call.drop_mismatch 1 ∷ []
    else Call.rx 1 ∷ Call.latency (since later resp.send_ts_ns) ∷ []

-- What follows `ch.Recv`.
unfoldable pub settle : ℕ → ℤ → Result (List ℕ) → List Call
unfolding settle_frame
settle next later (err e) =
    if is_timeout_error e then Call.drop_timeout 1 ∷ [] else Call.drop 1 ∷ []
settle next later (ok raw) = settle_frame next later (decode raw)

-- What follows `ch.Send`, with the calls that come after `AddTx`.
abbrev pub after_send : Result (Unit {0}) → List Call → List Call
after_send (err e) rest = Call.drop_send_err 1 ∷ []
after_send (ok _) rest = Call.tx 1 ∷ rest

unfoldable pub latency_step : ℕ → List ℕ → Attempt → List Call
unfolding frame_of settle
latency_step channel payload a =
    after_send (a.send (encode_or_nil (frame_of msg_req channel payload a)))
      (settle a.next a.later a.reply)

unfoldable pub flood_step : ℕ → List ℕ → Attempt → List Call
unfolding frame_of
flood_step channel payload a =
    after_send (a.send (encode_or_nil (frame_of msg_flood channel payload a))) []

-- One pass of a worker's `for`: the context is done, or the worker goes on (at a tick, if it has a
-- ticker).
pub data Round : Type 0 where
  over : Round
  goes : Attempt → Round

-- What a worker has done: its calls, what it did to connections, and whether it returned.
pub record Worked : Type 0 where
  pub calls : List Call
  pub log : List FdEvent
  pub returned : Bool

-- The `for` of a worker: its calls, and whether it returned.
unfoldable pub work : (Attempt → List Call) → List Round → List Call × Bool
work step [] = ([], Bool.false)
work step (over ∷ rs) = ([], Bool.true)
work step (goes a ∷ rs) = let w = work step rs in (step a ++ w.0, w.1)

-- `defer sess.Close()`, which a worker that returned has run.
abbrev pub deferred : Bool → Session → List FdEvent
deferred returned sess = if returned then map closed (session_close sess).1 else []

-- The worker's goroutine, with what `open` did for it.
unfoldable pub worker : (ℕ → Attempt → List Call) → M (Session × ℕ) → List Round → Worked
unfolding work session_close
worker step (failed e, log) rs = record { calls = []; log = log; returned = Bool.true }
worker step (waits, log) rs = record { calls = []; log = log; returned = Bool.false }
worker step (done (sess, channel), log) rs =
    let w = work (step channel) rs in
    record { calls = w.0; log = log ++ deferred w.1 sess; returned = w.1 }
