-- ===== src/Transport/Kernel/Session.antt =====
-- Sessions and listeners of the kernel transport: how sockets are made, and given back on errors.
pub mod Resources
pub mod Closing
pub mod Ending
use Prim.Native.String.{String}
use text.Mathlib.Text.{◌==◌ as str_eq}
use proto_test.Base.{
  ℕ, Bool, true, false, not, ◌&&◌, ◌||◌, List, [], ◌∷◌, Option, none, some, ◌==◌, if◌then◌else◌, ℤ,
  pos, is_pos, is_zero, Error, message, message_text, wrap, errno, eintr, eagain, einprogress,
  Result, ok, err,
}
use proto_test.Transport.{Config}
use proto_test.Transport.Tls.{
  Crypto, TlsConfig, pick_ip, kernel_server_tls_config, kernel_client_tls_config,
}
use proto_test.Transport.Kernel.FdConn.{
  FdConn, new_fd_conn, close, Time, Poll, judge, Verdict, again, usable, give_up, pollin, pollout,
  Loop, returned, raised, pending, poll_error, polled,
}
use proto_test.Transport.Kernel.Fds.{
  FdEvent, opened, closed, option_set, M, ◌>>=◌, ◌>>◌, pure, fail, lift, context, acquire, or_close,
  loop_or_close, Reply, done, failed, waits,
}
use proto_test.Transport.Kernel.Sockets.{Net, resolve_sock_addr, CtxRound, after, poll_fd}

pub record Session : Type 0 where
  pub cfg : Config
  pub base : FdConn
  -- `rw` is a TLS connection over `base`, rather than `base` itself.
  pub rw_is_tls : Bool
  pub closed : Bool

pub record Listener : Type 0 where
  pub fd : ℕ
  pub cfg : Config

-- The answers of the kernel during one `Dial`.
pub record DialAnswers : Type 0 where
  pub socket : Result ℕ
  pub set_nonblock : Result (Unit {0})
  pub bind : Result (Unit {0})
  pub connect : Option ℕ
  pub polls : List CtxRound
  pub so_error : Result ℕ

pub record ListenAnswers : Type 0 where
  pub socket : Result ℕ
  pub set_nonblock : Result (Unit {0})
  pub bind : Result (Unit {0})
  pub listen : Result (Unit {0})

-- `unix.Accept`: an error number, or a new descriptor with the result of `SetNonblock` on it.
pub data AcceptAnswer : Type 0 where
  accept_error : ℕ → AcceptAnswer
  accepted : ℕ → Result (Unit {0}) → AcceptAnswer

abbrev pub so_reuseaddr : ℕ
so_reuseaddr = 2

abbrev pub so_sndbuf : ℕ
so_sndbuf = 7

abbrev pub so_rcvbuf : ℕ
so_rcvbuf = 8

abbrev pub set_option : ℕ → ℕ → ℤ → M (Unit {0})
set_option fd option value = (done tt, option_set fd option value ∷ [])

abbrev pub when : Bool → M (Unit {0}) → M (Unit {0})
when b m = if b then m else pure tt

unfoldable pub set_buffers : Config → ℕ → M (Unit {0})
set_buffers cfg fd = do
  when (is_pos cfg.read_buffer) (set_option fd so_rcvbuf cfg.read_buffer)
  when (is_pos cfg.write_buffer) (set_option fd so_sndbuf cfg.write_buffer)

-- The end of `Listen`.
unfoldable pub start_listening : Config → Result (Unit {0}) → ℕ → M Listener
start_listening cfg r fd = do
  or_close fd (context "listen: %w" r)
  pure (record { fd = fd; cfg = cfg })

module _ (net : Net) where
  -- `Listen` from the new socket on.
  unfoldable pub listen_on : Config → ListenAnswers → ℕ → M Listener
  unfolding set_buffers start_listening
  listen_on cfg k fd = do
    or_close fd (context "set nonblock: %w" k.set_nonblock)
    set_option fd so_reuseaddr (pos 1)
    set_buffers cfg fd
    or_close fd (context "bind: %w" k.bind)
    start_listening cfg k.listen fd

  unfoldable pub listen : Config → ListenAnswers → M Listener
  unfolding listen_on
  listen cfg k = do
    (family, sa) ← lift (resolve_sock_addr net (pick_ip cfg.local_ip "0.0.0.0") cfg.local_port)
    fd ← acquire (context "socket: %w" k.socket)
    listen_on cfg k fd

  -- The local address, bound only if one is configured.
  unfoldable pub bind_local : Config → DialAnswers → ℕ → M (Unit {0})
  bind_local cfg k fd = when (not (str_eq cfg.local_ip "") || not (is_zero cfg.local_port)) do
    laddr ← or_close fd (resolve_sock_addr net (pick_ip cfg.local_ip "0.0.0.0") cfg.local_port)
    or_close fd (context "bind local: %w" k.bind)

-- What `SO_ERROR` says once the socket is writable.
abbrev pub so_result : Result ℕ → Result (Unit {0})
so_result (err e) = err (wrap "getsockopt SO_ERROR: %w" e)
so_result (ok n) = if not (n == 0) then err (wrap "connect: %w" (errno n)) else ok tt

-- `unix.Connect`, and the wait for a connection in progress.
unfoldable pub finish_connect : DialAnswers → ℕ → Option ℕ → M (Unit {0})
finish_connect k fd none = pure tt
finish_connect k fd (some e) =
    if not (e == einprogress)
    then or_close fd (err (wrap "connect: %w" (errno e)))
    else (do loop_or_close fd (poll_fd pollout k.polls); or_close fd (so_result k.so_error))

-- `if err := pollFD(…); err != nil { return nil, err }`
abbrev pub when_ready : Loop CtxRound (Unit {0}) → (List CtxRound → M Session) → M Session
when_ready pending f = (waits, [])
when_ready (raised e rest) f = fail e
when_ready (returned _ rest) f = f rest

module _ (lib : Crypto)
    (handshake : Option ℤ → TlsConfig lib.Cert lib.Pool → Result (Unit {0})) where
  -- `handshakeWithContext`: the timeout, if there is one, bounds the handshake.
  abbrev pub handshake_with_context : TlsConfig lib.Cert lib.Pool → ℤ → Result (Unit {0})
  handshake_with_context tc timeout = handshake (if is_pos timeout then some timeout else none) tc

  unfoldable pub enable_client_tls : Config → Result (Unit {0})
  enable_client_tls cfg = elim (kernel_client_tls_config lib cfg) [
    | err e ↦ err e
    | ok tc ↦
        context "sctp-kernel tls client handshake: %w"
          (handshake_with_context tc cfg.connect_timeout)
  ]

  unfoldable pub enable_server_tls : Config → Result (Unit {0})
  enable_server_tls cfg = elim (kernel_server_tls_config lib cfg) [
    | err e ↦ err e
    | ok tc ↦
        context "sctp-kernel tls server handshake: %w"
          (handshake_with_context tc cfg.connect_timeout)
  ]

  -- The session over a connected socket; `base.Close()` closes the descriptor if TLS fails.
  abbrev pub start_session : Config → Result (Unit {0}) → ℕ → M Session
  start_session cfg tls fd = do
    when cfg.tls (or_close fd tls)
    pure (record { cfg = cfg; base = new_fd_conn fd; rw_is_tls = cfg.tls; closed = false })

  -- `Dial` from the new socket on.
  unfoldable pub dial_on : Net → Config → DialAnswers → ℕ → M Session
  unfolding set_buffers bind_local finish_connect
  dial_on net cfg k fd = do
    or_close fd (context "set nonblock: %w" k.set_nonblock)
    set_buffers cfg fd
    bind_local net cfg k fd
    finish_connect k fd k.connect
    start_session cfg (enable_client_tls cfg) fd

  unfoldable pub dial : Net → Config → DialAnswers → M Session
  unfolding dial_on
  dial net cfg k =
      if str_eq cfg.remote_ip "" || is_zero cfg.remote_port
      then fail (message "remote_ip and remote_port are required")
      else (do
        (family, raddr) ← lift (resolve_sock_addr net cfg.remote_ip cfg.remote_port)
        fd ← acquire (context "socket: %w" k.socket)
        dial_on net cfg k fd)

  -- `Accept` from the accepted descriptor on.
  unfoldable pub accept_on : Config → Result (Unit {0}) → ℕ → M Session
  accept_on cfg nonblock fd = do
    or_close fd (context "set nonblock: %w" nonblock)
    start_session cfg (enable_server_tls cfg) fd

  unfoldable pub accept : Config → List AcceptAnswer → List CtxRound → M Session
  unfolding accept_on
  accept cfg [] rs = (waits, [])
  accept cfg (accept_error e ∷ more) rs = when_ready (poll_fd pollin rs) λ rest.
      (let retry = accept cfg more rest in
        if e == eagain || e == eintr then retry else fail (wrap "accept: %w" (errno e)))
  accept cfg (accepted fd nonblock ∷ more) rs =
      when_ready (poll_fd pollin rs) λ rest. (acquire (ok fd) >>= accept_on cfg nonblock)

-- `session.Close`: the session after it, and the descriptors that it hands to `unix.Close`. Where
-- `rw` is a TLS connection, its `Close` closes the socket below it.
unfoldable pub session_close : Session → Session × List ℕ
session_close s =
    if s.closed
    then (s, [])
    else (let (base, fds) = close s.base in (record s { closed = true; base = base }, fds))

-- A channel: all channels of a session share its connection.
pub record Channel : Type 0 where
  pub id : ℕ  -- uint16
  pub session : Session

-- `OpenChannel`
unfoldable pub open_channel : Session → ℕ → Channel
open_channel s id = record { id = id; session = s }

-- `AcceptChannel`
unfoldable pub accept_channel : Session → Channel
accept_channel s = record { id = 0; session = s }
