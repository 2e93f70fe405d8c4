-- ===== src/Tests/Kernel.antt =====
-- The kernel transport on concrete answers of the kernel.
use Prim.Native.String.{String}
use proto_test.Base.{
  ℕ, ◌≤◌, ◌≡◌, List, [], ◌∷◌, length, Option, some, none, true, false, ℤ, pos, negsuc, ◌-ℤ◌,
  net_timeout, errno, Result, ok, err, arith, einprogress, eagain,
}
use proto_test.Config.{default}
use proto_test.Transport.Kernel.FdConn.{
  FdConn, Round, Poll, polled, deadline_timeout, set_read_deadline, set_write_deadline, got,
  read_error, fd_read,
}
use proto_test.Transport.Kernel.FdConn.Deadline.{left_of, IsLimit, deadline_timeout-IsLimit}
use proto_test.Transport.Kernel.FdConn.Wait.{IsReadEnd, fd_read-IsReadEnd}
use proto_test.Transport.Kernel.Fds.Owned.{Balanced, WaitsWith}
use proto_test.Transport.Kernel.Sockets.{Net, CtxRound}
use proto_test.Transport.Kernel.Session.{
  Session, DialAnswers, ListenAnswers, AcceptAnswer, accept_error, accepted, dial, accept, listen,
}
use proto_test.Transport.Kernel.Session.Resources.{
  session_fd, listener_fd, dial-Balanced, accept-Balanced, listen-Balanced,
}
use proto_test.Transport.Kernel.Session.Closing.{whole, socket, close_calls, close_calls-once}
use proto_test.Transport.Tls.{TlsConfig}
use proto_test.Tests.Tls.{toy_crypto}

-- Every text is the address 127.0.0.1.
abbrev pub loopback : Net
loopback = record {
  Ip = String;
  parse_ip = λ s. some s;
  to4 = λ ip. some (127 ∷ 0 ∷ 0 ∷ 1 ∷ []);
  to16 = λ ip. [];
}

abbrev pub handshake : Option ℤ → TlsConfig String (List ℕ) → Result (Unit {0})
handshake timeout tc = err net_timeout

-- A connection in progress that is refused.
abbrev pub refused_dial : DialAnswers
refused_dial = record {
  socket = ok 5;
  set_nonblock = ok tt;
  bind = ok tt;
  connect = some einprogress;
  polls =
      record { ctx_err = none; answer = polled 0 0 }
      ∷ (record { ctx_err = none; answer = polled 1 4 } ∷ []);
  so_error = ok 111;
}

dial-Balanced_example :
    Balanced session_fd (dial toy_crypto handshake loopback default.transport refused_dial)
    × WaitsWith refused_dial.socket
        (dial toy_crypto handshake loopback default.transport refused_dial)
dial-Balanced_example = dial-Balanced toy_crypto handshake loopback default.transport refused_dial

abbrev accept_answers : List AcceptAnswer
accept_answers = accept_error eagain ∷ (accepted 6 (ok tt) ∷ [])

abbrev ready : CtxRound
ready = record { ctx_err = none; answer = polled 1 1 }

accept-Balanced_example :
    Balanced session_fd
      (accept toy_crypto handshake default.transport accept_answers (ready ∷ (ready ∷ [])))
accept-Balanced_example =
    accept-Balanced toy_crypto handshake default.transport accept_answers (ready ∷ (ready ∷ []))

abbrev pub busy_port : ListenAnswers
busy_port = record { socket = ok 4; set_nonblock = ok tt; bind = err (errno 98); listen = ok tt }

listen-Balanced_example : Balanced listener_fd (listen loopback default.transport busy_port)
listen-Balanced_example = listen-Balanced loopback default.transport busy_port

abbrev conn : FdConn
conn = record { fd = 5; closed = false; read_dl = some (pos 2_500_000); write_dl = none }

deadline_timeout-IsLimit_example :
    let dl = pos 2_500_000 in
    let now = pos 1_000_000 in
    IsLimit (left_of dl now) (deadline_timeout (set_read_deadline (some dl) conn) true now)
    × IsLimit (left_of dl now) (deadline_timeout (set_write_deadline (some dl) conn) false now)
    × (deadline_timeout (set_read_deadline none conn) true now ≡ negsuc 0)
    × (deadline_timeout (set_write_deadline none conn) false now ≡ negsuc 0)
    × (deadline_timeout (set_read_deadline none conn) false now ≡ deadline_timeout conn false now)
    × (deadline_timeout (set_write_deadline none conn) true now ≡ deadline_timeout conn true now)
unfolding ◌-ℤ◌
deadline_timeout-IsLimit_example =
    deadline_timeout-IsLimit conn (pos 2_500_000) (pos 1_000_000) none (omega arith)

-- A round at the time 0 with this answer.
abbrev round : Poll → Round
round p = record { now = pos 0; answer = λ ms. p }

fd_read-IsReadEnd_example : IsReadEnd (
    fd_read conn
      (read_error eagain ∷ (got (1 ∷ []) ∷ []))
      (round (polled 1 1) ∷ (round (polled 1 1) ∷ [])))
fd_read-IsReadEnd_example =
    fd_read-IsReadEnd conn (read_error eagain ∷ (got (1 ∷ []) ∷ []))
      (round (polled 1 1) ∷ (round (polled 1 1) ∷ []))

abbrev open_session : Session
open_session = record { cfg = default.transport; base = conn; rw_is_tls = false; closed = false }

close_calls-once_example :
    (length (close_calls (whole ∷ (socket ∷ (whole ∷ []))) open_session) ≤ 1)
    × (false ≡ true → close_calls (whole ∷ (socket ∷ (whole ∷ []))) open_session ≡ [])
close_calls-once_example = close_calls-once (whole ∷ (socket ∷ (whole ∷ []))) open_session
