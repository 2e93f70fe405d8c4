-- ===== src/Transport/Sctp.antt =====
-- pkg/transport/sctp/sctp.go: `channel.Send` and `channel.Recv`, one write and one read for a message.
pub mod Framing
pub mod Session
use proto_test.Base.{ℕ, ◌*◌, List, [], ◌∷◌, take, if◌then◌else◌, Error, to_deadline}
use proto_test.Transport.Kernel.FdConn.{Time}
use proto_test.Transport.Stream.{Chunk, bytes, Outcome, map_error, read}
use proto_test.Transport.Stream.Writes.{Write, wrote, refused, Sent, sent, broke, waiting}

-- `make([]byte, 64*1024)`
abbrev pub recv_buffer : ℕ
recv_buffer = 64 * 1024

-- `Recv` after the deadline is set.
unfoldable pub recv_message : List Chunk → Outcome (List ℕ)
recv_message s = map_error to_deadline (read recv_buffer s)

-- `Send` after the deadline is set: one `Write`, whose count is dropped.
unfoldable pub send_message : List ℕ → List Write → Sent
send_message payload [] = waiting []
send_message payload (wrote n ∷ ws) = sent (bytes (take n payload) ∷ []) ws
send_message payload (refused n e ∷ ws) = broke (to_deadline e) (bytes (take n payload) ∷ [])

-- `Recv` and `Send`: what the connection's reads and writes give is what they give under the
-- deadline of the context, or under none.
unfoldable pub recv : Time → (Time → List Chunk) → Outcome (List ℕ)
unfolding recv_message
recv deadline reads = recv_message (reads deadline)

unfoldable pub send : Time → (Time → List Write) → List ℕ → Sent
unfolding send_message
send deadline writes payload = send_message payload (writes deadline)
