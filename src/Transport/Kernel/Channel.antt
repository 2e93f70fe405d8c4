-- ===== src/Transport/Kernel/Channel.antt =====
-- `channel.Send` and `channel.Recv` of the kernel transport, over the `net.Conn` of the session.
pub mod Recv
pub mod Send
use proto_test.Base.{
  ℕ, ◌+◌, ◌<◌, List, [], ◌∷◌, ◌++◌, Option, length, take, drop, section, ltb, ◌==◌, leb,
  if◌then◌else◌, ℤ, get_be, Error, to_deadline,
}
use proto_test.Transport.Kernel.FdConn.{FdConn, Time, set_read_deadline, set_write_deadline}
use proto_test.Transport.Stream.{Chunk, bytes, Outcome, done, ◌>>=◌, map_error, read_full}
use proto_test.Transport.Stream.Writes.{Write, wrote, refused, Sent, sent, broke, waiting, piece}

-- The second half of `Recv`, from the payload's length on.
unfoldable pub recv_payload : List ℕ → ℕ → List Chunk → Outcome (List ℕ)
recv_payload header payload_len rest =
    if payload_len == 0
    then done header rest
    else (map_error to_deadline (read_full payload_len rest) >>= λ payload rest'.
        done (header ++ payload) rest')

-- `Recv` after the deadline is set: a header of 26 bytes, whose last two give the payload's length,
-- and then the payload.
unfoldable pub recv_frame : List Chunk → Outcome (List ℕ)
unfolding recv_payload
recv_frame s = map_error to_deadline (read_full 26 s) >>= λ header rest.
    recv_payload header (get_be (section 24 2 header)) rest

-- The loop of `Send`: `payload = payload[n:]` until nothing is left.
unfoldable pub send_loop : List ℕ → List Write → Sent
send_loop [] ws = sent [] ws
send_loop (b ∷ bs) [] = waiting []
send_loop (b ∷ bs) (wrote n ∷ ws) = piece (take n (b ∷ bs)) (send_loop (drop n (b ∷ bs)) ws)
send_loop (b ∷ bs) (refused n e ∷ ws) = broke (to_deadline e) (bytes (take n (b ∷ bs)) ∷ [])

-- `Recv` and `Send` on the socket: the deadline of the context, or none, replaces the one that the
-- socket had, and what its reads and writes give is that of the socket with this deadline.
unfoldable pub recv : Time → (FdConn → List Chunk) → FdConn → FdConn × Outcome (List ℕ)
unfolding set_read_deadline recv_frame
recv deadline reads c = let c' = set_read_deadline deadline c in (c', recv_frame (reads c'))

unfoldable pub send : Time → (FdConn → List Write) → List ℕ → FdConn → FdConn × Sent
unfolding set_write_deadline send_loop
send deadline writes payload c =
    let c' = set_write_deadline deadline c in (c', send_loop payload (writes c'))
