-- ===== src/Transport/Quic.antt =====
-- pkg/transport/quic/quic.go: one QUIC stream to a channel, and messages with a length in front.
pub mod Framing
pub mod Session
use proto_test.Base.{
  ℕ, zero, suc, ◌+◌, ◌*◌, ◌%◌, ◌^◌, List, [], ◌∷◌, ◌++◌, Option, none, some, length, take, drop,
  ltb, if◌then◌else◌, ℤ, pos, negsuc, ◌*ℤ◌, wrap_i64, is_pos, put_be, get_be, Error, message_number,
}
use proto_test.Transport.{Config}
use proto_test.Transport.Stream.{Chunk, bytes, fail, Outcome, done, failed, ◌>>=◌, read_full}
use proto_test.Transport.Stream.Writes.{Write, wrote, refused, Sent, sent, broke, waiting, piece}

abbrev pub max_frame_size : ℕ
max_frame_size = 16 * 1024 * 1024

-- `writeAll`: writes until the whole buffer is taken or an error comes.
unfoldable pub write_all : List ℕ → List Write → Sent
write_all [] ws = sent [] ws
write_all (b ∷ bs) [] = waiting []
write_all (b ∷ bs) (wrote n ∷ ws) = piece (take n (b ∷ bs)) (write_all (drop n (b ∷ bs)) ws)
write_all (b ∷ bs) (refused n e ∷ ws) = broke e (bytes (take n (b ∷ bs)) ∷ [])

-- A chunk in front of the pieces of a loop.
abbrev pub behind : Chunk → Sent → Sent
behind c (sent q ws) = sent (c ∷ q) ws
behind c (broke e q) = broke e (c ∷ q)
behind c (waiting q) = waiting (c ∷ q)

-- Pieces that are already on the connection, and what follows them.
abbrev pub after_pieces : List Chunk → Sent → Sent
after_pieces [] r = r
after_pieces (c ∷ p) r = behind c (after_pieces p r)

-- What follows a `writeAll` that returned without an error.
abbrev pub and_then : Sent → (List Write → Sent) → Sent
and_then (sent p ws) f = after_pieces p (f ws)
and_then (broke e p) f = broke e p
and_then (waiting p) f = waiting p

-- `Send`: the size check, the write deadline (with the error of setting it), the length, the bytes.
unfoldable pub send : Option Error → List ℕ → List Write → Sent
unfolding write_all
send deadline payload ws =
    if ltb max_frame_size (length payload)
    then broke (message_number "payload too large: %d" (length payload)) []
    else elim deadline [
      | some e ↦ broke e []
      | none ↦
          and_then (write_all (put_be 4 (length payload % 2 ^ 32)) ws)
            (λ ws'. write_all payload ws')
    ]

-- The code of `Recv` behind the length.
unfoldable pub recv_payload : ℕ → List Chunk → Outcome (List ℕ)
recv_payload size rest =
    if ltb max_frame_size size
    then failed (message_number "incoming payload too large: %d" size) rest
    else read_full size rest

-- `Recv`
unfoldable pub recv : Option Error → List Chunk → Outcome (List ℕ)
unfolding recv_payload
recv (some e) s = failed e s
recv none s = read_full 4 s >>= λ header rest. recv_payload (get_be header) rest

-- The part of `quic.Config` that the transport's configuration decides: the keep-alive period in
-- nanoseconds and the number of streams that the peer may open.
pub record QuicConfig : Type 0 where
  pub keep_alive_period : ℤ
  pub max_incoming_streams : ℤ
  pub handshake_idle_timeout : ℤ
  pub max_incoming_uni_streams : ℤ

unfoldable pub quic_config : Config → QuicConfig
quic_config cfg = record {
  keep_alive_period =
      if is_pos cfg.heartbeat_ms then wrap_i64 (cfg.heartbeat_ms *ℤ pos 1000000) else pos 0;
  max_incoming_streams =
      if is_pos cfg.channel_count then wrap_i64 (cfg.channel_count *ℤ pos 4) else pos 0;
  handshake_idle_timeout = pos 3_000_000_000;
  max_incoming_uni_streams = negsuc 0;
}
