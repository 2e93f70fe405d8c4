-- ===== src/Load/Attempt/Counts.antt =====
-- Every round of a worker is counted, once, whatever its connection does.
use proto_test.Base.{
  ℕ, ◌+◌, ◌≡◌, inl, inr, List, [], ◌∷◌, ◌++◌, not, ◌||◌, ◌==◌, Bool-cases, ℤ, Result, ok, err,
  arith,
}
use proto_test.Wire.{Frame, decode, msg_resp}
use proto_test.Metrics.{Call}
use proto_test.Metrics.Totals.{sum_of, sent, received, dropped, send_failed, sampled}
use proto_test.Load.Rates.{is_timeout_error}
use proto_test.Load.Attempt.{
  Attempt, settle_frame, settle, after_send, latency_step, flood_step, Round, over, goes, work,
  worker,
}
use proto_test.Transport.Kernel.Fds.{M, done, failed, waits}
use proto_test.Transport.Backend.{Session}

-- The calls of `n` requests: each was sent or failed to be, each was answered or dropped, and there
-- is one sample for each answer.
pub record Settles (n : ℕ) (ks : List Call) : Type 0 where
  pub tried : sum_of sent ks + sum_of send_failed ks ≡ n
  pub ended : sum_of received ks + sum_of dropped ks ≡ n
  pub samples : sum_of sampled ks ≡ sum_of received ks

-- The calls of the second half of a round.
record Ends (ks : List Call) : Type 0 where
  unsent : sum_of sent ks + sum_of send_failed ks ≡ 0
  ended : sum_of received ks + sum_of dropped ks ≡ 1
  samples : sum_of sampled ks ≡ sum_of received ks

settle_frame-Ends : (next : ℕ) (later : ℤ) (r : Result Frame) → Ends (settle_frame next later r)
unfolding settle_frame sum_of
settle_frame-Ends next later (err e) = omega arith
settle_frame-Ends next later (ok f) =
    elim (Bool-cases (not (f.msg_type == msg_resp) || not (f.seq_id == next))) [
      | inl h ↦ rw h (omega arith)
      | inr h ↦ rw h (omega arith)
    ]

settle-Ends : (next : ℕ) (later : ℤ) (r : Result (List ℕ)) → Ends (settle next later r)
unfolding settle sum_of
settle-Ends next later (err e) = elim (Bool-cases (is_timeout_error e)) [
  | inl h ↦ rw h (omega arith)
  | inr h ↦ rw h (omega arith)
]
settle-Ends next later (ok raw) = settle_frame-Ends next later (decode raw)

after_send-Settles :
    (r : Result (Unit {0})) (ks : List Call) → Ends ks → Settles 1 (after_send r ks)
unfolding sum_of
after_send-Settles (err e) ks h = omega arith
after_send-Settles (ok _) ks h = omega (arith, h.unsent, h.ended, h.samples)

latency_step-Settles :
    (channel : ℕ) (payload : List ℕ) (a : Attempt) → Settles 1 (latency_step channel payload a)
unfolding latency_step
latency_step-Settles channel payload a = after_send-Settles _ _ (settle-Ends a.next a.later a.reply)

-- The calls of a flood: each packet was sent or failed to be.
pub record Floods (n : ℕ) (ks : List Call) : Type 0 where
  pub tried : sum_of sent ks + sum_of dropped ks ≡ n
  pub unanswered : sum_of received ks ≡ 0

after_send-Floods : (r : Result (Unit {0})) → Floods 1 (after_send r [])
unfolding sum_of
after_send-Floods (err e) = omega arith
after_send-Floods (ok _) = omega arith

flood_step-Floods :
    (channel : ℕ) (payload : List ℕ) (a : Attempt) → Floods 1 (flood_step channel payload a)
unfolding flood_step
flood_step-Floods channel payload a = after_send-Floods _

pub sum_of-append :
    (w : Call → ℕ) (js ks : List Call) → sum_of w (js ++ ks) ≡ sum_of w js + sum_of w ks
unfolding sum_of
sum_of-append w [] ks = omega arith
sum_of-append w (j ∷ js) ks = omega (arith, sum_of-append w js ks)

pub Settles-nil : Settles 0 []
unfolding sum_of
Settles-nil = omega arith

pub Floods-nil : Floods 0 []
unfolding sum_of
Floods-nil = omega arith

pub Settles-append :
    (m n : ℕ) (js ks : List Call) → Settles m js → Settles n ks → Settles (m + n) (js ++ ks)
Settles-append m n js ks g h =
    let at = λ (w : Call → ℕ). sum_of-append w js ks in
    omega (
      arith,
      at sent,
      at send_failed,
      at received,
      at dropped,
      at sampled,
      g.tried,
      g.ended,
      g.samples,
      h.tried,
      h.ended,
      h.samples,
    )

pub Floods-append :
    (m n : ℕ) (js ks : List Call) → Floods m js → Floods n ks → Floods (m + n) (js ++ ks)
Floods-append m n js ks g h =
    let at = λ (w : Call → ℕ). sum_of-append w js ks in
    omega (arith, at sent, at dropped, at received, g.tried, g.unanswered, h.tried, h.unanswered)

-- The rounds that a worker makes before the context is done.
unfoldable pub rounds : List Round → ℕ
rounds [] = 0
rounds (over ∷ rs) = 0
rounds (goes a ∷ rs) = 1 + rounds rs

-- ... which are none without a channel.
abbrev pub attempts : M (Session × ℕ) → List Round → ℕ
attempts (done r, log) rs = rounds rs
attempts (failed e, log) rs = 0
attempts (waits, log) rs = 0

work-Settles :
    (channel : ℕ) (payload : List ℕ) (rs : List Round)
    → Settles (rounds rs) (work (latency_step channel payload) rs).0
unfolding work rounds
work-Settles channel payload [] = Settles-nil
work-Settles channel payload (over ∷ rs) = Settles-nil
work-Settles channel payload (goes a ∷ rs) =
    Settles-append 1 (rounds rs) _ _ (latency_step-Settles channel payload a)
      (work-Settles channel payload rs)

work-Floods :
    (channel : ℕ) (payload : List ℕ) (rs : List Round)
    → Floods (rounds rs) (work (flood_step channel payload) rs).0
unfolding work rounds
work-Floods channel payload [] = Floods-nil
work-Floods channel payload (over ∷ rs) = Floods-nil
work-Floods channel payload (goes a ∷ rs) =
    Floods-append 1 (rounds rs) _ _ (flood_step-Floods channel payload a)
      (work-Floods channel payload rs)

-- What the workers of a run did: what `open` did for each, and its rounds.
abbrev pub Crew : Type 0
Crew = List (M (Session × ℕ) × List Round)

unfoldable pub crew_calls : (ℕ → Attempt → List Call) → Crew → List Call
crew_calls step [] = []
crew_calls step ((o, rs) ∷ crew) = (worker step o rs).calls ++ crew_calls step crew

unfoldable pub crew_attempts : Crew → ℕ
crew_attempts [] = 0
crew_attempts ((o, rs) ∷ crew) = attempts o rs + crew_attempts crew

worker-Settles :
    (payload : List ℕ) (o : M (Session × ℕ)) (rs : List Round)
    → Settles (attempts o rs) (worker (λ ch. latency_step ch payload) o rs).calls
unfolding worker
worker-Settles payload (failed e, log) rs = Settles-nil
worker-Settles payload (waits, log) rs = Settles-nil
worker-Settles payload (done (sess, channel), log) rs = work-Settles channel payload rs

worker-Floods :
    (payload : List ℕ) (o : M (Session × ℕ)) (rs : List Round)
    → Floods (attempts o rs) (worker (λ ch. flood_step ch payload) o rs).calls
unfolding worker
worker-Floods payload (failed e, log) rs = Floods-nil
worker-Floods payload (waits, log) rs = Floods-nil
worker-Floods payload (done (sess, channel), log) rs = work-Floods channel payload rs

pub crew-Settles :
    (payload : List ℕ) (crew : Crew)
    → Settles (crew_attempts crew) (crew_calls (λ ch. latency_step ch payload) crew)
unfolding crew_calls crew_attempts
crew-Settles payload [] = Settles-nil
crew-Settles payload ((o, rs) ∷ crew) =
    Settles-append _ _ _ _ (worker-Settles payload o rs) (crew-Settles payload crew)

pub crew-Floods :
    (payload : List ℕ) (crew : Crew)
    → Floods (crew_attempts crew) (crew_calls (λ ch. flood_step ch payload) crew)
unfolding crew_calls crew_attempts
crew-Floods payload [] = Floods-nil
crew-Floods payload ((o, rs) ∷ crew) =
    Floods-append _ _ _ _ (worker-Floods payload o rs) (crew-Floods payload crew)
