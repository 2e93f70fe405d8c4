-- ===== src/Transport/Queue/Framed.antt =====
-- The channels of the kernel transport and of QUIC behind the interface.
use mathlib.Core.List.{append_assoc}
use proto_test.Base.{
  ℕ, ◌%◌, ◌^◌, ◌≤◌, ◌≡◌, refl, ap, ◌∙◌, List, [], ◌++◌, map, none, length, All, put_be, arith,
}
use proto_test.Wire.{Frame, frame_bytes}
use proto_test.Transport.Stream.{Chunk, blocked, contents, NoFailure}
use proto_test.Transport.Stream.Laws.{Reads, read_full-blocked}
use proto_test.Transport.Kernel.Channel.{recv_frame, send_loop}
use proto_test.Transport.Kernel.Channel.Recv.{recv_frame-frame_bytes}
use proto_test.Transport.Kernel.Channel.Send.{send_loop-Puts}
use proto_test.Transport.Quic.{max_frame_size, send, recv}
use proto_test.Transport.Quic.Framing.{message_bytes, send-Puts, recv-message_bytes}
use proto_test.Transport.Queue.{Channel, Op, channel_run, queue_run}
use proto_test.Transport.Queue.Refines.{queue_op, IsCarried, runs_alike}

-- An encoded frame.
abbrev pub IsEncoded : List ℕ → Type 0
IsEncoded p = (f : Frame) × (length f.payload ≤ 0xFFFF) × (p ≡ frame_bytes f)

pub kernel_recv :
    (p rest : List ℕ) (s : List Chunk)
    → IsEncoded p
    → NoFailure s
    → contents s ≡ p ++ rest
    → Reads (recv_frame s) p rest
kernel_recv p rest s (f, small, same) nf e =
    rw same (recv_frame-frame_bytes f rest s small nf (e ∙ ap (λ b. b ++ rest) same))

pub recv_frame-blocked : (s : List Chunk) → NoFailure s → contents s ≡ [] → recv_frame s ≡ blocked
unfolding recv_frame
recv_frame-blocked s nf e = rw (read_full-blocked 26 s nf (omega (arith, ap length e))) refl

-- A channel of the kernel transport carries encoded frames, which need nothing in front of them.
unfoldable pub kernel_channel : Channel
kernel_channel = record {
  Carries = IsEncoded;
  wire = λ p. p;
  send = send_loop;
  recv = recv_frame;
  send-Puts = λ p ws c. send_loop-Puts p ws;
  recv-Reads = kernel_recv;
  recv-blocked = recv_frame-blocked;
}

pub recv-blocked : (s : List Chunk) → NoFailure s → contents s ≡ [] → recv none s ≡ blocked
unfolding recv
recv-blocked s nf e = rw (read_full-blocked 4 s nf (omega (arith, ap length e))) refl

-- A QUIC channel carries any message of at most 16 MiB, with its length in front.
unfoldable pub quic_channel : Channel
quic_channel = record {
  Carries = λ p. length p ≤ max_frame_size;
  wire = message_bytes;
  send = send none;
  recv = recv none;
  send-Puts = λ p ws c. send-Puts p ws c;
  recv-Reads = λ p rest s c nf e.
      recv-message_bytes p rest s c nf (e ∙ append_assoc (put_be 4 (length p % 2 ^ 32)) p rest);
  recv-blocked = recv-blocked;
}

-- The two transports over a byte stream.
pub data Framing : Type 0 where
  over_kernel over_quic : Framing

unfoldable pub channel_over : Framing → Channel
unfolding kernel_channel quic_channel
channel_over over_kernel = kernel_channel
channel_over over_quic = quic_channel

-- Over the kernel transport and over QUIC, with messages that the transport carries, any sequence of
-- calls of `Send` and `Recv` on a fresh connection on which no read fails is seen as on a queue:
-- each `Recv` returns the oldest message that was sent and not yet received, whole and once,
-- however the writes are cut, and waits if there is none. The sequence ends at a failed `Send`.
pub channel_run-queue_run :
    (t : Framing) (ops : List Op)
    → All (IsCarried (channel_over t)) ops
    → channel_run (channel_over t) ops [] ≡ queue_run (map (queue_op (channel_over t)) ops) []
channel_run-queue_run t ops h = runs_alike (channel_over t) ops h
