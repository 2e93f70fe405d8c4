-- ===== src/Tests/Transport.antt =====
-- The transports on concrete answers of the kernel, the libraries and the network.
use proto_test.Base.{
  ℕ, ◌≡◌, ◌⊎◌, refl, List, [], ◌∷◌, ◌++◌, map, none, ok, put_be, arith, ◌≤◌, ◌<◌, message, err,
}
use proto_test.Wire.{decode, frame_bytes, encode}
use proto_test.Transport.Stream.{Chunk, bytes, done, contents, NoFailure}
use proto_test.Transport.Stream.Laws.{Reads}
use proto_test.Transport.Stream.Writes.{Write, wrote, sent}
use proto_test.Transport.Kernel.Channel.{recv_frame, send_loop}
use proto_test.Transport.Kernel.Channel.Recv.{recv_many, recv_many-frames}
use proto_test.Transport.Kernel.Channel.Send.{recv_frame-send_loop}
use proto_test.Transport.Sctp.{recv_message}
use proto_test.Transport.Sctp.Framing.{recv_message-limit}
use proto_test.Transport.Quic.{send, recv}
use proto_test.Transport.Quic.Framing.{recv-send}
use proto_test.Tests.{request, request_bytes}

encode-request : encode request ≡ ok request_bytes
unfolding encode frame_bytes put_be
encode-request = refl

-- A write that takes n bytes, for each of the numbers.
abbrev writes : List ℕ → List Write
writes ns = map wrote ns

abbrev many_writes : List Write
many_writes = writes (
    3 ∷ 30 ∷ 1 ∷ 1 ∷ 1 ∷ 1 ∷ 1 ∷ 1 ∷ 1 ∷ 1 ∷ 1 ∷ 1 ∷ 1 ∷ 1 ∷ 1 ∷ 1 ∷ 1 ∷ 1 ∷ 1 ∷ 1 ∷ 1 ∷ 1 ∷ 1 ∷ 1
    ∷ 1 ∷ 1 ∷ 1 ∷ 1 ∷ 1 ∷ [])

recv_frame-send_loop_example :
    (ps : List Chunk) × (left : List Write) × (send_loop request_bytes many_writes ≡ sent ps left)
    × Reads (recv_frame ps) request_bytes []
recv_frame-send_loop_example =
    recv_frame-send_loop request request_bytes many_writes encode-request (omega arith)
      (omega arith)

-- Two requests, cut in the middle, with a byte behind them.
abbrev cut_stream : List Chunk
cut_stream =
    bytes (77 ∷ 53 ∷ [])
    ∷ bytes (
        71 ∷ 71 ∷ 1 ∷ 1 ∷ 0 ∷ 0 ∷ 0 ∷ 0 ∷ 0 ∷ 0 ∷ 0 ∷ 7 ∷ 0 ∷ 0 ∷ 0 ∷ 0 ∷ 0 ∷ 0 ∷ 3 ∷ 232 ∷ 0 ∷ 3
        ∷ 0 ∷ 3 ∷ 10 ∷ 20 ∷ 30 ∷ 77 ∷ [])
    ∷ bytes (
        53 ∷ 71 ∷ 71 ∷ 1 ∷ 1 ∷ 0 ∷ 0 ∷ 0 ∷ 0 ∷ 0 ∷ 0 ∷ 0 ∷ 7 ∷ 0 ∷ 0 ∷ 0 ∷ 0 ∷ 0 ∷ 0 ∷ 3 ∷ 232 ∷ 0
        ∷ 3 ∷ 0 ∷ 3 ∷ 10 ∷ 20 ∷ 30 ∷ 99 ∷ [])
    ∷ []

cut_stream-contents :
    contents cut_stream ≡ (frame_bytes request ++ (frame_bytes request ++ [])) ++ (99 ∷ [])
unfolding contents frame_bytes put_be
cut_stream-contents = refl

recv_many-frames_example :
    (s' : List Chunk) × (recv_many 2 cut_stream
      ≡ done (frame_bytes request ∷ (frame_bytes request ∷ [])) s')
    × NoFailure s'
    × (contents s' ≡ 99 ∷ [])
recv_many-frames_example =
    recv_many-frames (request ∷ (request ∷ [])) (99 ∷ []) cut_stream (omega arith) (omega arith)
      cut_stream-contents

recv-send_example :
    (ps : List Chunk) × (left : List Write) × (send none (10 ∷ (20 ∷ [])) many_writes
      ≡ sent ps left)
    × Reads (recv none ps) (10 ∷ (20 ∷ [])) []
recv-send_example = recv-send (10 ∷ (20 ∷ [])) many_writes (omega arith) (omega arith) (omega arith)

recv_message-limit_example :
    ((3 ≤ 65510) × (recv_message (bytes request_bytes ∷ []) ≡ done request_bytes []))
    ⊎ ((65510 < 3)
        × ((part left : List ℕ) × (recv_message (bytes request_bytes ∷ [])
              ≡ done part (bytes left ∷ []))
            × (part ++ left ≡ request_bytes)
            × (decode part ≡ err (message "truncated payload"))))
recv_message-limit_example = recv_message-limit request request_bytes [] encode-request
