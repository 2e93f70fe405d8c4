-- ===== src/Load/Open.antt =====
-- `Runner.open` of pkg/load/load.go: a session of the backend, and a channel on it.
pub mod Closed
pub mod Fresh
pub mod Leaves
use proto_test.Base.{ℕ, List, [], ◌∷◌, map, Option, Result, ok, err}
use proto_test.Transport.{Config}
use proto_test.Transport.Kernel.Fds.{FdEvent, closed, Reply, done, failed, M, ◌>>=◌, pure}
use proto_test.Transport.Kernel.Session.{DialAnswers}
use proto_test.Transport.Sctp.Session.{Race}
use proto_test.Transport.Backend.{World, Session, dial, session_close, open_channel}

-- `if err != nil { sess.Close(); return nil, nil, err }`
unfoldable pub or_close_session : Session → Result ℕ → M (Session × ℕ)
unfolding session_close
or_close_session s (ok channel) = pure (s, channel)
or_close_session s (err e) = (failed e, map closed (session_close s).1)

-- `open`, with what QUIC's `OpenStreamSync` returns; the value has the session and the channel's
-- `ID()`.
unfoldable pub open_session :
    (w : World)
    → Config
    → DialAnswers
    → (Option w.sctp.Addr → w.sctp.Addr → Race)
    → Result ℕ
    → ℕ
    → M (Session × ℕ)
unfolding dial or_close_session open_channel
open_session w cfg k race stream channel_id =
    dial w cfg k race >>= λ s. or_close_session s (open_channel s stream channel_id)
