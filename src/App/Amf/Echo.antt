-- ===== src/App/Amf/Echo.antt =====
-- The AMF answers a request with the same frame, marked as a response, and nothing else.
use mathlib.Core.List.{append-nil}
use proto_test.Base.{ℕ, ◌≤◌, ◌≡◌, refl, List, [], some, length, Result, ok, arith}
use proto_test.Wire.{Frame, IsFrame, decode, encode_or_nil, msg_req}
use proto_test.Wire.RoundTrip.{decode-encode}
use proto_test.App.Amf.{response, answer, handle_frame}

-- A frame that fits its types is encoded to a buffer that decodes to it again.
encode_or_nil-decode :
    (f : Frame) → IsFrame f → length f.payload ≤ 0xFFFF → decode (encode_or_nil f) ≡ ok f
unfolding encode_or_nil
encode_or_nil-decode f v h =
    let (buf, e, l, d) = decode-encode f [] v h in rw (e, encode_or_nil) (rw append-nil at d)

pub response-IsFrame : (f : Frame) → IsFrame f → IsFrame (response f)
response-IsFrame f v = record {
  type_fits = omega arith;
  seq_fits = v.seq_fits;
  ts_fits = v.ts_fits;
  channel_fits = v.channel_fits;
  payload_bytes = v.payload_bytes;
}

-- An answer is the response to the frame that was decoded.
abbrev pub IsEcho : Result Frame → List ℕ → Type 0
IsEcho r buf = (f : Frame) × (r ≡ ok f) × (f.msg_type ≡ msg_req) × (decode buf ≡ ok (response f))

-- What the AMF answers to a request that was encoded.
pub handle_frame-request :
    (f : Frame)
    → IsFrame f
    → length f.payload ≤ 0xFFFF
    → f.msg_type ≡ msg_req
    → (handle_frame (encode_or_nil f) ≡ some (encode_or_nil (response f)))
      × (decode (encode_or_nil (response f)) ≡ ok (response f))
unfolding handle_frame answer
handle_frame-request f v small q = (
  rw (encode_or_nil-decode f v small) (rw q refl),
  encode_or_nil-decode (response f) (response-IsFrame f v) small,
)
