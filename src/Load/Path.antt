-- ===== src/Load/Path.antt =====
-- The whole way of a request over the kernel transport or QUIC: from a worker to the AMF and back.
use proto_test.Base.{ℕ, ◌+◌, ◌≤◌, ◌≡◌, refl, List, [], ◌∷◌, length, some, ok, arith}
use proto_test.Wire.{Frame, IsFrame, encode, encode_or_nil, msg_req}
use proto_test.Wire.RoundTrip.{decode-encode}
use proto_test.Metrics.{Call}
use proto_test.App.Amf.{response, handle_frame}
use proto_test.App.Amf.Echo.{response-IsFrame, handle_frame-request}
use proto_test.Transport.Stream.{Chunk}
use proto_test.Transport.Stream.Laws.{Reads}
use proto_test.Transport.Stream.Writes.{Write, sent, MakesProgress}
use proto_test.Transport.Kernel.Channel.Send.{recv_frame-send_loop}
use proto_test.Transport.Quic.Framing.{recv-send}
use proto_test.Transport.Queue.Framed.{
  Framing, over_kernel, over_quic, kernel_channel, quic_channel, channel_over,
}
use proto_test.Load.Attempt.{Attempt, frame_of, since, latency_step}
use proto_test.Load.Attempt.Reply.{IsAttempt, request-IsFrame, latency_step-Matched}

-- What a peer sends with these answers of the connection, the other peer receives.
abbrev pub Delivers : Framing → List ℕ → List Write → Type 0
Delivers t buf ws =
    (pieces : List Chunk) × (left : List Write) × ((channel_over t).send buf ws ≡ sent pieces left)
    × Reads ((channel_over t).recv pieces) buf []

encode_or_nil_same : (f : Frame) (buf : List ℕ) → encode f ≡ ok buf → encode_or_nil f ≡ buf
unfolding encode_or_nil
encode_or_nil_same f buf e = rw (e, encode_or_nil) refl

encode_or_nil-ok :
    (f : Frame)
    → IsFrame f
    → length f.payload ≤ 0xFFFF
    → (encode f ≡ ok (encode_or_nil f)) × (length (encode_or_nil f) ≡ 26 + length f.payload)
encode_or_nil-ok f v small =
    let (buf, e, l, d) = decode-encode f [] v small in rw (encode_or_nil_same f buf e) (e, l)

delivers :
    (t : Framing) (f : Frame) (ws : List Write)
    → IsFrame f
    → length f.payload ≤ 0xFFFF
    → MakesProgress ws
    → 30 + length f.payload ≤ length ws
    → Delivers t (encode_or_nil f) ws
unfolding channel_over kernel_channel quic_channel
delivers over_kernel f ws v small m h =
    let (e, l) = encode_or_nil-ok f v small in
    recv_frame-send_loop f (encode_or_nil f) ws e m (omega (arith, l))
delivers over_quic f ws v small m h =
    let (e, l) = encode_or_nil-ok f v small in
    recv-send (encode_or_nil f) ws (omega (arith, l)) m (omega (arith, l))

-- A request whose fields fit their types, with a payload of at most 65535 bytes, over the kernel
-- transport or over QUIC, where the writes of both sides take at least one byte each and there are
-- four more than bytes of a frame: it reaches the AMF as it was sent, the AMF answers it, and the
-- answer reaches the worker as it was sent. A round that could send and reads this answer counts it
-- as sent and as received, with the time since it was sent.
pub request_returns :
    (t : Framing) (channel : ℕ) (payload : List ℕ) (a : Attempt) (there back : List Write)
    → IsAttempt channel payload a
    → length payload ≤ 0xFFFF
    → MakesProgress there
    → 30 + length payload ≤ length there
    → MakesProgress back
    → 30 + length payload ≤ length back
    → let buf = encode_or_nil (frame_of msg_req channel payload a) in
      Delivers t buf there
      × ((reply : List ℕ) × (handle_frame buf ≡ some reply)
          × Delivers t reply back
          × (a.send buf ≡ ok tt
              → a.reply ≡ ok reply
              → latency_step channel payload a
                ≡ Call.tx 1 ∷ (Call.rx 1 ∷ (Call.latency (since a.later a.now) ∷ []))))
unfolding frame_of
request_returns t channel payload a there back v small m1 h1 m2 h2 =
    let f = frame_of msg_req channel payload a in
    let valid = request-IsFrame channel payload a v in
    let (answered, d) = handle_frame-request f valid small refl in
    (
      delivers t f there valid small m1 h1,
      (
        encode_or_nil (response f),
        answered,
        delivers t (response f) back (response-IsFrame f valid) small m2 h2,
        λ s r. (latency_step-Matched channel payload a a _ v small answered s r).0 refl,
      ),
    )
