-- ===== src/Tests/Backend.antt =====
-- The transports behind one interface, and the end of calls whose context is done.
use proto_test.Base.{
  ◌≡◌, ℕ, refl, List, [], ◌∷◌, Option, none, some, canceled, net_timeout, ok, err, arith,
}
use proto_test.Config.{default}
use proto_test.Transport
use proto_test.Transport.Kernel.FdConn.{polled}
use proto_test.Transport.Kernel.Fds.{opened, closed, failed}
use proto_test.Transport.Kernel.Sockets.{CtxRound}
use proto_test.Transport.Kernel.Session.{
  DialAnswers, AcceptAnswer, accepted, accept_error, dial, accept,
}
use proto_test.Transport.Kernel.Session.Ending.{Returns, dial-accept-Returns}
use proto_test.Transport.Sctp.Session.{Library, Race, context_first}
use proto_test.Transport.Sctp.Session.Accounts.{Leaves}
use proto_test.Transport.Backend.{World, Listener, on_sctp, listener_close}
use proto_test.Transport.Backend as Backend
use proto_test.Transport.Backend.Accounts.{connection, lost_by_dial, lost_by_accept}
use proto_test.Load.Open.{open_session}
use proto_test.Load.Open.Leaves.{held, connections-Leaves}
use proto_test.Tests.Tls.{toy_crypto}
use proto_test.Tests.Kernel.{loopback, handshake, refused_dial, busy_port}

abbrev done_round : CtxRound
done_round = record { ctx_err = some canceled; answer = polled 0 0 }

abbrev quiet_round : CtxRound
quiet_round = record { ctx_err = none; answer = polled 0 0 }

-- A dial that the context ends in its second round.
abbrev pub cancelled_dial : DialAnswers
cancelled_dial = record refused_dial { polls = quiet_round ∷ (done_round ∷ []) }

abbrev two_answers : List AcceptAnswer
two_answers = accept_error 11 ∷ (accepted 6 (ok tt) ∷ [])

dial-accept-Returns_example :
    Returns (dial toy_crypto handshake loopback default.transport cancelled_dial)
    × Returns (
        accept toy_crypto handshake default.transport two_answers (quiet_round ∷ (done_round ∷ [])))
dial-accept-Returns_example =
    dial-accept-Returns done_round [] canceled refl toy_crypto handshake loopback default.transport
      cancelled_dial two_answers (quiet_round ∷ []) refl (omega arith)

-- An SCTP library whose addresses are ports.
abbrev ports : Library
ports = record { Addr = ℕ; resolve = λ ip port. ok 38412; listen_sctp = λ addr. ok 3 }

abbrev pub world : World
world = record {
  crypto = toy_crypto;
  net = loopback;
  sctp = ports;
  quic = record { listen_addr = λ ip port tls cfg. ok 3; dial_addr = λ ip port tls cfg. ok 8 };
  sctp_handshake = handshake;
  kernel_handshake = handshake;
}

-- The context is done before the library has a connection.
abbrev late : Race
late = context_first canceled (ok 9)

abbrev pub late_dial : Option ℕ → ℕ → Race
late_dial l r = late

abbrev sctp_listener : Listener
sctp_listener = on_sctp (record { ln = 3; cfg = default.transport })

-- The dial over QUIC succeeds, and there is no stream for a channel.
abbrev pub quic : Transport.Config
quic = record default.transport { type = "quic" }

connections-Leaves_example :
    Leaves listener_close [] (Backend.listen world quic busy_port)
    × Leaves connection
        (lost_by_dial world quic late_dial)
        (Backend.dial world quic cancelled_dial late_dial)
    × Leaves connection
        (lost_by_accept world sctp_listener late)
        (Backend.accept world sctp_listener late two_answers (quiet_round ∷ []) (ok 4))
    × Leaves held
        (lost_by_dial world quic late_dial)
        (open_session world quic cancelled_dial late_dial (err net_timeout) 2)
connections-Leaves_example =
    connections-Leaves world quic busy_port cancelled_dial late_dial (err net_timeout) 2
      sctp_listener late two_answers (quiet_round ∷ []) (ok 4)

-- The connection is opened, and closed again.
no_channel :
    open_session world quic cancelled_dial late_dial (err net_timeout) 2
    ≡ (failed net_timeout, opened 8 ∷ (closed 8 ∷ []))
unfolding open_session
no_channel = refl
