-- ===== src/Tests/Wire.antt =====
-- The frame codec on a request with a payload of three bytes.
use proto_test.Base.{
  ℕ, ◌+◌, ◌≤◌, ◌≡◌, refl, List, [], ◌∷◌, ◌++◌, length, take, All, IsByte, if◌then◌else◌, ltb,
  get_be, put_be, ok, err, message, message_number, arith,
}
use proto_test.Wire.{IsFrame, frame_bytes, encode, decoded, decode}
use proto_test.Wire.RoundTrip.{decode-encode, encode-decode}
use proto_test.Wire.Prefix.{decode_truncated}
use proto_test.Tests.{request, request-IsFrame, request_bytes}

decode-encode_example :
    (buf : List ℕ) × (encode request ≡ ok buf)
    × (length buf ≡ 26 + 3)
    × (decode (buf ++ (1 ∷ [])) ≡ ok request)
decode-encode_example = decode-encode request (1 ∷ []) request-IsFrame (omega arith)

request_bytes-bytes : All IsByte request_bytes
request_bytes-bytes = omega arith

decode-request : decode request_bytes ≡ ok request
unfolding decode decoded get_be
decode-request = refl

encode-decode_example :
    IsFrame request × (26 + 3 ≤ 29) × (encode request ≡ ok (take 29 request_bytes))
encode-decode_example = encode-decode request_bytes request request_bytes-bytes decode-request

truncated_request :
    encode request
    ≡ ok (
        (77 ∷ 53 ∷ 71 ∷ 71 ∷ [])
        ++ (1
            ∷ (1 ∷ 0 ∷ 0 ∷ 0 ∷ 0 ∷ 0 ∷ 0 ∷ 0 ∷ 7 ∷ 0 ∷ 0 ∷ 0 ∷ 0 ∷ 0 ∷ 0 ∷ 3 ∷ 232 ∷ 0 ∷ 3 ∷ 0 ∷ 3
                ∷ 10 ∷ 20 ∷ 30 ∷ [])))
unfolding encode frame_bytes put_be
truncated_request = refl

decode_truncated_example : decode (77 ∷ 53 ∷ 71 ∷ 71 ∷ []) ≡ (
    if ltb 4 26
    then err (message_number "frame too short: %d" 4)
    else err (message "truncated payload"))
decode_truncated_example = decode_truncated request (77 ∷ 53 ∷ 71 ∷ 71 ∷ []) 1 _ truncated_request
