-- ===== src/Wire.antt =====
-- pkg/wire/frame.go: the frame that gNB and AMF exchange, and its binary form.
-- A byte slice is a list of numbers below 256; a slice expression `input[a:b]` is a `section`.
pub mod Fields
pub mod RoundTrip
pub mod Prefix
use proto_test.Base.{
  ℕ, ◌+◌, ◌%◌, ◌^◌, ◌≤◌, ◌<◌, List, [], ◌∷◌, ◌++◌, not, length, section, get_or, ltb, ◌==◌,
  if◌then◌else◌, All, ℤ, IsI64, IsU64, to_u64, to_i64, IsByte, put_be, get_be, Result, ok, err,
  message, message_number,
}

abbrev pub magic : ℕ
magic = 0x4D354747

abbrev pub version : ℕ
version = 1

-- `MsgType`: a byte, three of whose values have names.
abbrev pub msg_req : ℕ
msg_req = 1

abbrev pub msg_resp : ℕ
msg_resp = 2

abbrev pub msg_flood : ℕ
msg_flood = 3

pub record Frame : Type 0 where
  pub msg_type : ℕ  -- uint8
  pub seq_id : ℕ  -- uint64
  pub send_ts_ns : ℤ  -- int64
  pub channel_id : ℕ  -- uint16
  pub payload : List ℕ

-- The ranges of the fields' Go types.
pub record IsFrame (f : Frame) : Type 0 where
  pub type_fits : IsByte f.msg_type
  pub seq_fits : IsU64 f.seq_id
  pub ts_fits : IsI64 f.send_ts_ns
  pub channel_fits : f.channel_id < 2 ^ 16
  pub payload_bytes : All IsByte f.payload

abbrev pub header_size : ℕ
header_size = 26

abbrev pub max_payload : ℕ
max_payload = 0xFFFF

-- The buffer that `Encode` fills, from its first byte to its last.
unfoldable pub frame_bytes : Frame → List ℕ
frame_bytes f =
    put_be 4 magic
    ++ (version
        ∷ f.msg_type
        ∷ (put_be 8 f.seq_id
            ++ (put_be 8 (to_u64 f.send_ts_ns)
                ++ (put_be 2 f.channel_id ++ (put_be 2 (length f.payload % 2 ^ 16) ++ f.payload)))))

unfoldable pub encode : Frame → Result (List ℕ)
encode f =
    if ltb max_payload (length f.payload)
    then err (message_number "payload too large: %d" (length f.payload))
    else ok (frame_bytes f)

-- The frame that `Decode` returns once every check has passed.
unfoldable pub decoded : List ℕ → Frame
decoded input = record {
  msg_type = get_or input 5 0;
  seq_id = get_be (section 6 8 input);
  send_ts_ns = to_i64 (get_be (section 14 8 input));
  channel_id = get_be (section 22 2 input);
  payload = section 26 (get_be (section 24 2 input)) input;
}

unfoldable pub decode : List ℕ → Result Frame
decode input =
    if ltb (length input) header_size
    then err (message_number "frame too short: %d" (length input))
    else if not (get_be (section 0 4 input) == magic)
    then err (message_number "bad magic: %x" (get_be (section 0 4 input)))
    else if not (get_or input 4 0 == version)
    then err (message_number "bad version: %d" (get_or input 4 0))
    else if ltb (length input) (header_size + get_be (section 24 2 input))
    then err (message "truncated payload")
    else ok (decoded input)

-- `buf, _ := frm.Encode()`: the error is dropped, and the buffer of a failed call is nil.
unfoldable pub encode_or_nil : Frame → List ℕ
encode_or_nil f = elim (encode f) [ ok buf ↦ buf | err e ↦ [] ]
