-- ===== src/Load/Attempt/Reply.antt =====
-- A worker's request, the AMF's answer to it, and what the worker then counts.
use proto_test.Base.{
  ℕ, ◌≤◌, ◌<◌, ◌^◌, ◌≡◌, ◌≢◌, refl, sym, ◌∙◌, subst, List, [], ◌∷◌, length, some, true, false, ◌==◌,
  lt→ltb, ok, err, message_number, arith, IsI64, IsU64, All, IsByte,
}
use proto_test.Wire.{Frame, IsFrame, encode, decode, encode_or_nil, msg_req, msg_flood}
use proto_test.Transport.Stream.Writes.{Write, sent}
use proto_test.Transport.Kernel.Channel.{send_loop}
use proto_test.Metrics.{Call}
use proto_test.App.Amf.{response, handle_frame}
use proto_test.App.Amf.Echo.{handle_frame-request}
use proto_test.Load.Attempt.{
  Attempt, frame_of, since, settle_frame, settle, latency_step, flood_step,
}

-- The values of a round fit their Go types.
pub record IsAttempt (channel : ℕ) (payload : List ℕ) (a : Attempt) : Type 0 where
  pub seq_fits : IsU64 a.next
  pub now_fits : IsI64 a.now
  pub channel_fits : channel < 2 ^ 16
  pub payload_bytes : All IsByte payload

abbrev pub request : ℕ → List ℕ → Attempt → Frame
request channel payload a = frame_of msg_req channel payload a

pub request-IsFrame :
    (channel : ℕ) (payload : List ℕ) (a : Attempt)
    → IsAttempt channel payload a
    → IsFrame (request channel payload a)
unfolding frame_of
request-IsFrame channel payload a v = record {
  type_fits = omega arith;
  seq_fits = v.seq_fits;
  ts_fits = v.now_fits;
  channel_fits = v.channel_fits;
  payload_bytes = v.payload_bytes;
}

-- Which calls the answer to the request of round `b` leads to in round `a`.
abbrev pub Matched : Attempt → Attempt → List Call → Type 0
Matched a b ks =
    (b.next ≡ a.next → ks ≡ Call.tx 1 ∷ Call.rx 1 ∷ Call.latency (since a.later b.now) ∷ [])
    × (b.next ≢ a.next → ks ≡ Call.tx 1 ∷ Call.drop_mismatch 1 ∷ [])

test-eq : (m n : ℕ) → m ≡ n → (m == n) ≡ true
test-eq m n e = ground arith

test-ne : (m n : ℕ) → m ≢ n → (m == n) ≡ false
test-ne m n e = ground arith

settle-Matched :
    (channel : ℕ) (payload : List ℕ) (a b : Attempt) (buf : List ℕ)
    → decode buf ≡ ok (response (request channel payload b))
    → Matched a b (Call.tx 1 ∷ settle a.next a.later (ok buf))
unfolding settle settle_frame frame_of
settle-Matched channel payload a b buf d =
    rw d (λ e. rw (test-eq b.next a.next e) refl, λ n. rw (test-ne b.next a.next n) refl)

some-injective : {x y : List ℕ} → some x ≡ some y → x ≡ y
some-injective e = cc

-- A request of round `b` whose fields fit their types and whose payload has at most 65535 bytes is
-- answered by the AMF, and the answer is read in round `a` of the same worker, which could send. If
-- round `a` has the number of round `b`, the answer counts as received with the time since `b` sent
-- its request; otherwise it counts as a mismatch.
pub latency_step-Matched :
    (channel : ℕ) (payload : List ℕ) (a b : Attempt) (buf : List ℕ)
    → IsAttempt channel payload b
    → length payload ≤ 0xFFFF
    → handle_frame (encode_or_nil (frame_of msg_req channel payload b)) ≡ some buf
    → a.send (encode_or_nil (frame_of msg_req channel payload a)) ≡ ok tt
    → a.reply ≡ ok buf
    → Matched a b (latency_step channel payload a)
unfolding latency_step frame_of
latency_step-Matched channel payload a b buf v small h s r =
    let (e, d) =
      handle_frame-request (request channel payload b) (request-IsFrame channel payload b v) small
        refl in
    let same = some-injective (sym e ∙ h) in
    rw (s, r)
      (settle-Matched channel payload a b buf
        (subst (λ x. decode x ≡ ok (response (request channel payload b))) same d))

encode-long :
    (f : Frame)
    → 0xFFFF < length f.payload
    → encode f ≡ err (message_number "payload too large: %d" (length f.payload))
unfolding encode
encode-long f h = rw (lt→ltb 0xFFFF (length f.payload) h) refl

encode_or_nil-long : (f : Frame) → 0xFFFF < length f.payload → encode_or_nil f ≡ []
unfolding encode_or_nil
encode_or_nil-long f h = rw (encode-long f h, encode_or_nil) refl

-- A payload of more than 65535 bytes: the buffer of every request and of every flood packet is
-- empty, and the `Send` of the kernel transport takes an empty buffer without a write, whatever
-- writes would succeed, so that the packet is counted in `tx` and nothing of it is sent.
pub latency_step-oversize :
    (channel : ℕ) (payload : List ℕ) (a : Attempt) (ws : List Write)
    → 0xFFFF < length payload
    → a.send [] ≡ ok tt
    → (send_loop (encode_or_nil (frame_of msg_req channel payload a)) ws ≡ sent [] ws)
      × (latency_step channel payload a ≡ Call.tx 1 ∷ settle a.next a.later a.reply)
      × (flood_step channel payload a ≡ Call.tx 1 ∷ [])
unfolding latency_step flood_step frame_of send_loop
latency_step-oversize channel payload a ws h s =
    let e = encode_or_nil-long (frame_of msg_req channel payload a) h in
    let d = encode_or_nil-long (frame_of msg_flood channel payload a) h in
    (rw e refl, rw (e, s) refl, rw (d, s) refl)
