-- ===== src/Tests/Queue.antt =====
-- Calls of `Send` and `Recv` on a channel of the kernel transport.
use proto_test.Base.{◌≡◌, refl, List, [], ◌∷◌, map, All, put_be, arith}
use proto_test.Wire.{frame_bytes}
use proto_test.Transport.Stream.Writes.{Write, wrote}
use proto_test.Transport.Queue.{Op, put, get, channel_run, queue_run}
use proto_test.Transport.Queue.Refines.{queue_op, IsCarried}
use proto_test.Transport.Queue.Framed.{IsEncoded, over_kernel, channel_over, channel_run-queue_run}
use proto_test.Tests.{request, request_bytes}

request_bytes-IsEncoded : IsEncoded request_bytes
unfolding frame_bytes put_be
request_bytes-IsEncoded = (request, omega arith, refl)

-- A `Recv` too early, two messages in three writes each, and three times `Recv`.
abbrev three_writes : List Write
three_writes = map wrote (10 ∷ (1 ∷ (99 ∷ [])))

abbrev calls : List Op
calls =
    get
    ∷ (put request_bytes three_writes
        ∷ (get ∷ (put request_bytes three_writes ∷ (get ∷ (get ∷ [])))))

calls-IsCarried : All (IsCarried (channel_over over_kernel)) calls
unfolding channel_over
calls-IsCarried = (tt, (request_bytes-IsEncoded, (tt, (request_bytes-IsEncoded, (tt, (tt, tt))))))

channel_run-queue_run_example :
    channel_run (channel_over over_kernel) calls []
    ≡ queue_run (map (queue_op (channel_over over_kernel)) calls) []
channel_run-queue_run_example = channel_run-queue_run over_kernel calls calls-IsCarried
