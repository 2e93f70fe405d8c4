-- ===== src/Tests/Load.antt =====
-- The load generator: a worker that sends two requests, one of which is answered in time.
use mathlib.Core.List.{Perm}
use mathlib.Core.List.Perm.{refl as perm_refl}
use proto_test.Base.{
  ℕ, zero, suc, ◌+◌, ◌*◌, ◌≤◌, ◌<◌, ◌^◌, ◌≡◌, ◌⊎◌, refl, List, [], ◌∷◌, ◌++◌, length, true, false,
  some, pos, pos_part, deadline_exceeded, message, is_pos, ok, err, arith, get_be, put_be, ◌-ℤ◌,
}
use proto_test.Config.{default}
use proto_test.Wire.{decode, decoded, encode, frame_bytes, encode_or_nil, msg_req}
use proto_test.Metrics.{Call, Snapshot, empty, apply_all}
use proto_test.App.Amf.{response, handle_frame}
use proto_test.App.Amf.Echo.{handle_frame-request}
use proto_test.Load.Rates.{worker_count, pps_per_worker, tick_interval, is_timeout_error}
use proto_test.Load.Rates.Pace.{IsShared, tick_interval-IsShared, tick_interval-bounds}
use proto_test.Load.Attempt.{
  since, Attempt, frame_of, latency_step, flood_step, over, goes, worker, settle, settle_frame,
  work,
}
use proto_test.Load.Attempt.Counts.{Crew, crew_calls, crew_attempts, rounds}
use proto_test.Load.Attempt.Reply.{IsAttempt, Matched, latency_step-Matched, latency_step-oversize}
use proto_test.Transport.Queue.Framed.{over_quic}
use proto_test.Load.Path.{Delivers, request_returns}
use proto_test.Load.Open.{open_session}
use proto_test.Load.Open.Closed.{Closes, worker-IsClosed}
use proto_test.Transport.Kernel.Fds.{opened, done, failed}
use proto_test.Transport.Backend.{Session, over_quic as quic_session}
use proto_test.Transport.Backend.Accounts.{lost_by_dial}
use proto_test.Tests.Backend.{world, quic, cancelled_dial, late_dial}
use proto_test.Load.Run.{Runner, Event, called, second, calls_of, run_latency, run_flood}
use proto_test.Load.Run.Account.{seconds_in, run_latency-accounts, run_flood-accounts}
use proto_test.Load.Sweep.{step_count, start_pps, increment, pps_at, run_throughput_sweep}
use proto_test.Load.Sweep.Steps.{IsAtSteps, latency_run, pps_at-eq, run_throughput_sweep-rows}
use proto_test.Transport.Stream.Writes.{Write, wrote, sent}
use proto_test.Transport.Kernel.Channel.{send_loop}
use proto_test.Tests.{hundredths, request, request-IsFrame}

abbrev runner : Runner
runner = record { transport_cfg = default.transport; run_cfg = default.run }

abbrev payload : List ℕ
payload = 10 ∷ (20 ∷ (30 ∷ []))

-- The attempt that sends `request`, whose answer arrives 4 microseconds later.
abbrev answered : Attempt
answered = record {
  next = 7;
  now = pos 1000;
  send = λ buf. ok tt;
  reply = ok (encode_or_nil (response request));
  later = pos 5000;
}

abbrev timed_out : Attempt
timed_out = record answered { next = 8; reply = err deadline_exceeded }

abbrev session : Session
session = quic_session (record { conn = 8; closed = false })

abbrev crew : Crew
crew =
    ((done (session, 3), opened 8 ∷ []), goes answered ∷ (goes timed_out ∷ (over ∷ [])))
    ∷ (((failed deadline_exceeded, []), []) ∷ [])

tick_interval-IsShared_example :
    IsShared (worker_count default.run) 1000 (tick_interval default.run)
tick_interval-IsShared_example =
    tick_interval-IsShared default.run 1000 refl (omega arith) (omega arith)

tick_interval-bounds_example :
    let q = pos_part (pps_per_worker default.run) in
    let t = tick_interval default.run in
    (1 ≤ t) × (q ≤ 1_000_000_000 → (t * q ≤ 1_000_000_000) × (1_000_000_000 < t * q + q))
tick_interval-bounds_example = tick_interval-bounds default.run

worker-IsClosed_example :
    let m = open_session world quic cancelled_dial late_dial (ok 2) 2 in
    Closes
      (lost_by_dial world quic late_dial)
      m
      (worker (λ ch. latency_step ch payload) m (goes timed_out ∷ (over ∷ [])))
worker-IsClosed_example =
    worker-IsClosed world quic cancelled_dial late_dial (ok 2) 2 (λ ch. latency_step ch payload)
      (goes timed_out ∷ (over ∷ [])) tt

request_valid : IsAttempt 3 payload answered
request_valid = record {
  seq_fits = omega arith;
  now_fits = omega arith;
  channel_fits = omega arith;
  payload_bytes = omega arith;
}

request-answered :
    handle_frame (encode_or_nil (frame_of msg_req 3 payload answered))
    ≡ some (encode_or_nil (response request))
unfolding frame_of
request-answered = (handle_frame-request request request-IsFrame (omega arith) refl).0

latency_step-Matched_example : Matched answered answered (latency_step 3 payload answered)
latency_step-Matched_example =
    latency_step-Matched 3 payload answered answered (encode_or_nil (response request))
      request_valid (omega arith) request-answered refl refl

-- The calls of the crew, with a row in between.
abbrev events : List Event
events =
    called (Call.tx 1)
    ∷ (called (Call.rx 1)
        ∷ (called (Call.latency (pos 4000))
            ∷ (second (pos 1_000_000_000) (pos 1_000_005_000)
                ∷ (called (Call.tx 1) ∷ (called (Call.drop_timeout 1) ∷ [])))))

events-calls : calls_of events ≡ crew_calls (λ ch. latency_step ch payload) crew
unfolding calls_of crew_calls worker work latency_step frame_of settle settle_frame decode decoded
    get_be encode_or_nil encode frame_bytes put_be is_timeout_error ◌-ℤ◌
events-calls = refl

events-perm : Perm (calls_of events) (crew_calls (λ ch. latency_step ch payload) crew)
events-perm = rw events-calls (perm_refl _)

crew-few : crew_attempts crew < 2 ^ 64
unfolding crew_attempts rounds
crew-few = omega arith

run_latency-accounts_example :
    (rows : List Snapshot) × (last : Snapshot) × (run_latency hundredths runner events
        (pos 1)
        (pos 2)
      ≡ rows ++ last ∷ [])
    × (length rows ≡ seconds_in events)
    × (last.tx + last.drop_send_err ≡ crew_attempts crew)
    × (last.rx + last.drop ≡ crew_attempts crew)
    × (length (apply_all empty (calls_of events)).latency_us ≡ last.rx)
run_latency-accounts_example =
    run_latency-accounts hundredths runner payload crew events (pos 1) (pos 2) crew-few events-perm

abbrev flood_events : List Event
flood_events = called (Call.tx 1) ∷ (second (pos 1) (pos 2) ∷ (called (Call.tx 1) ∷ []))

flood-calls : calls_of flood_events ≡ crew_calls (λ ch. flood_step ch payload) crew
unfolding calls_of crew_calls worker work flood_step
flood-calls = refl

flood-perm : Perm (calls_of flood_events) (crew_calls (λ ch. flood_step ch payload) crew)
flood-perm = rw flood-calls (perm_refl _)

run_flood-accounts_example :
    (rows : List Snapshot) × (last : Snapshot) × (run_flood hundredths runner flood_events (pos 2)
      ≡ rows ++ last ∷ [])
    × (length rows ≡ seconds_in flood_events)
    × (last.tx + last.drop ≡ crew_attempts crew)
    × (last.rx ≡ 0)
run_flood-accounts_example =
    run_flood-accounts hundredths runner payload crew flood_events (pos 2) crew-few flood-perm

-- A sweep of five steps, each with the rows of the same events.
run_throughput_sweep-rows_example :
    ((is_pos default.run.step_duration ≡ false)
      × (run_throughput_sweep
            (latency_run hundredths (λ i. events) (λ i. pos 1) (λ i. pos 2))
            runner
          ≡ err (message "step_duration must be > 0")))
    ⊎ ((is_pos default.run.step_duration ≡ true)
        × ((rows : List Snapshot) × (run_throughput_sweep
                (latency_run hundredths (λ i. events) (λ i. pos 1) (λ i. pos 2))
                runner
              ≡ ok rows)
            × (length rows ≡ step_count default.run)
            × (1 ≤ length rows)
            × IsAtSteps default.run (λ i. pos 2) 0 rows))
run_throughput_sweep-rows_example =
    run_throughput_sweep-rows hundredths (λ i. events) (λ i. pos 1) (λ i. pos 2) runner

in_range : pos_part (start_pps default.run) + 4 * pos_part (increment default.run) < 2 ^ 63
unfolding start_pps increment
in_range = omega arith

pps_at-eq_example :
    (pps_at default.run 4
      ≡ pos (pos_part (start_pps default.run) + 4 * pos_part (increment default.run)))
    × (1 ≤ pos_part (start_pps default.run))
    × (1 ≤ pos_part (increment default.run))
pps_at-eq_example = pps_at-eq default.run 4 in_range

-- n bytes.
zeros : ℕ → List ℕ
zeros zero = []
zeros (suc n) = 0 ∷ zeros n

length-zeros : (n : ℕ) → length (zeros n) ≡ n
unfolding zeros
length-zeros zero = refl
length-zeros (suc n) = omega (arith, length-zeros n)

long_zeros : 0xFFFF < length (zeros 65536)
long_zeros = omega (arith, length-zeros 65536)

latency_step-oversize_example :
    (send_loop (encode_or_nil (frame_of msg_req 3 (zeros 65536) answered)) (wrote 1 ∷ [])
      ≡ sent [] (wrote 1 ∷ []))
    × (latency_step 3 (zeros 65536) answered ≡ Call.tx 1 ∷ settle 7 (pos 5000) answered.reply)
    × (flood_step 3 (zeros 65536) answered ≡ Call.tx 1 ∷ [])
latency_step-oversize_example =
    latency_step-oversize 3 (zeros 65536) answered (wrote 1 ∷ []) long_zeros refl

-- Writes that take ten bytes each.
abbrev tens : ℕ → List Write
tens zero = []
tens (suc n) = wrote 10 ∷ tens n

request_returns_example :
    let buf = encode_or_nil (frame_of msg_req 3 payload answered) in
    Delivers over_quic buf (tens 33)
    × ((reply : List ℕ) × (handle_frame buf ≡ some reply)
        × Delivers over_quic reply (tens 34)
        × (answered.send buf ≡ ok tt
            → answered.reply ≡ ok reply
            → latency_step 3 payload answered
              ≡ Call.tx 1 ∷ (Call.rx 1 ∷ (Call.latency (since (pos 5000) (pos 1000)) ∷ []))))
request_returns_example =
    request_returns over_quic 3 payload answered (tens 33) (tens 34) request_valid (omega arith)
      (omega arith) (omega arith) (omega arith) (omega arith)
