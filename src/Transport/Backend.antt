-- ===== src/Transport/Backend.antt =====
-- pkg/transport/backend/backend.go: the transport that a configuration names, and the sessions,
-- listeners and channels of the three of them behind the interfaces of pkg/transport/transport.go.
pub mod Accounts
use Prim.Native.String.{String}
use text.Mathlib.Text.{◌==◌ as str_eq}
use proto_test.Base.{ℕ, List, Option, ℤ, if◌then◌else◌, message_text, Result, ok, err}
use proto_test.Transport.{Config, type_sctp, type_sctp_kernel, type_quic}
use proto_test.Transport.Tls.{Crypto, TlsConfig}
use proto_test.Transport.Kernel.Fds.{FdEvent, Reply, done, failed, waits, M, fail}
use proto_test.Transport.Kernel.Sockets.{Net, CtxRound}
use proto_test.Transport.Kernel.Session.{
  DialAnswers, ListenAnswers, AcceptAnswer, dial as kernel_dial, listen as kernel_listen,
  accept as kernel_accept, session_close as kernel_close,
}
use proto_test.Transport.Kernel.Session as Kernel
use proto_test.Transport.Sctp.Session.{
  Library, Race, dial as sctp_dial, listen as sctp_listen, accept as sctp_accept,
  session_close as sctp_close,
}
use proto_test.Transport.Sctp.Session as Sctp
use proto_test.Transport.Quic.Session.{
  dial as quic_dial, listen as quic_listen, accept as quic_accept, session_close as quic_close,
  open_channel as quic_open_channel, accept_channel as quic_accept_channel,
}
use proto_test.Transport.Quic.Session as Quic

-- What the transports call that is not theirs.
pub record World : Type 1 where
  pub crypto : Crypto
  pub net : Net
  pub sctp : Library
  pub quic : Quic.Library crypto.Cert crypto.Pool
  pub sctp_handshake : Option ℤ → TlsConfig crypto.Cert crypto.Pool → Result (Unit {0})
  pub kernel_handshake : Option ℤ → TlsConfig crypto.Cert crypto.Pool → Result (Unit {0})

pub data Session : Type 0 where
  over_sctp : Sctp.Session → Session
  over_kernel : Kernel.Session → Session
  over_quic : Quic.Session → Session

pub data Listener : Type 0 where
  on_sctp : Sctp.Listener → Listener
  on_kernel : Kernel.Listener → Listener
  on_quic : Quic.Listener → Listener

-- A call whose value is seen through an interface.
abbrev pub as_interface : {A B : Type 0} → (A → B) → M A → M B
as_interface f (done a, log) = (done (f a), log)
as_interface f (failed e, log) = (failed e, log)
as_interface f (waits, log) = (waits, log)

module _ (w : World) where
  unfoldable pub listen : Config → ListenAnswers → M Listener
  unfolding sctp_listen kernel_listen quic_listen
  listen cfg k =
      if str_eq cfg.type type_sctp
      then as_interface on_sctp (sctp_listen w.sctp cfg)
      else if str_eq cfg.type type_sctp_kernel
      then as_interface on_kernel (kernel_listen w.net cfg k)
      else if str_eq cfg.type type_quic
      then as_interface on_quic (quic_listen w.crypto w.quic cfg)
      else fail (message_text "unknown transport type %q" cfg.type)

  unfoldable pub dial : Config → DialAnswers → (Option w.sctp.Addr → w.sctp.Addr → Race) → M Session
  unfolding sctp_dial kernel_dial quic_dial
  dial cfg k race =
      if str_eq cfg.type type_sctp
      then as_interface over_sctp (sctp_dial w.sctp w.crypto w.sctp_handshake cfg race)
      else if str_eq cfg.type type_sctp_kernel
      then as_interface over_kernel (kernel_dial w.crypto w.kernel_handshake w.net cfg k)
      else if str_eq cfg.type type_quic
      then as_interface over_quic (quic_dial w.crypto w.quic cfg)
      else fail (message_text "unknown transport type %q" cfg.type)

  -- `Accept` of a listener, with the answers for the transport that it is of.
  unfoldable pub accept : Listener → Race → List AcceptAnswer → List CtxRound → Result ℕ → M Session
  unfolding sctp_accept kernel_accept quic_accept
  accept (on_sctp l) race answers polls accepted =
      as_interface over_sctp (sctp_accept w.sctp w.crypto w.sctp_handshake l.cfg race)
  accept (on_kernel l) race answers polls accepted =
      as_interface over_kernel (kernel_accept w.crypto w.kernel_handshake l.cfg answers polls)
  accept (on_quic l) race answers polls accepted = as_interface over_quic (quic_accept accepted)

-- `Close` of a session: the session after it, and the connections that it closes.
unfoldable pub session_close : Session → Session × List ℕ
unfolding sctp_close kernel_close quic_close
session_close (over_sctp s) = let r = sctp_close s in (over_sctp r.0, r.1)
session_close (over_kernel s) = let r = kernel_close s in (over_kernel r.0, r.1)
session_close (over_quic s) = let r = quic_close s in (over_quic r.0, r.1)

abbrev pub channel_id : Result Quic.Channel → Result ℕ
channel_id (ok ch) = ok ch.id
channel_id (err e) = err e

-- `OpenChannel`, with what `OpenStreamSync` of QUIC returns; the value is the channel's `ID()`.
unfoldable pub open_channel : Session → Result ℕ → ℕ → Result ℕ
unfolding Sctp.open_channel Kernel.open_channel quic_open_channel
open_channel (over_sctp s) stream id = ok (Sctp.open_channel s id).id
open_channel (over_kernel s) stream id = ok (Kernel.open_channel s id).id
open_channel (over_quic s) stream id = channel_id (quic_open_channel stream id)

-- `Close` of a listener: the descriptor, listener or socket that it closes.
abbrev pub listener_close : Listener → ℕ
listener_close (on_sctp l) = l.ln
listener_close (on_kernel l) = l.fd
listener_close (on_quic l) = l.ln

-- `AcceptChannel`, with the stream that QUIC's `AcceptStream` returns and its number.
unfoldable pub accept_channel : Session → Result (ℕ × ℕ) → Result ℕ
unfolding Sctp.accept_channel Kernel.accept_channel quic_accept_channel
accept_channel (over_sctp s) stream = ok (Sctp.accept_channel s).id
accept_channel (over_kernel s) stream = ok (Kernel.accept_channel s).id
accept_channel (over_quic s) stream = channel_id (quic_accept_channel stream)
