-- ===== src/Transport/Sctp/Session.antt =====
-- pkg/transport/sctp/sctp.go: `Listen`, `Dial` and `Accept` as races between the context and a call
-- of the SCTP library, whose connections are numbers.
pub mod Accounts
use Prim.Native.String.{String}
use text.Mathlib.Text.{◌==◌ as str_eq}
use proto_test.Base.{
  ℕ, Bool, true, false, ◌&&◌, List, [], ◌∷◌, Option, none, some, if◌then◌else◌, ℤ, is_pos, is_zero,
  Error, Result, ok, err,
}
use proto_test.Transport.{Config}
use proto_test.Transport.Tls.{Crypto, TlsConfig, sctp_server_tls_config, sctp_client_tls_config}
use proto_test.Transport.Kernel.Fds.{
  FdEvent, opened, M, ◌>>=◌, ◌>>◌, pure, lift, context, acquire, or_close, failed,
}
use proto_test.Transport.Kernel.Session.{set_option, when}

-- The address and listener functions of the SCTP library; `resolve` is `ResolveSCTPAddr` on the text
-- "ip:port".
pub record Library : Type 1 where
  pub Addr : Type 0
  pub resolve : String → ℤ → Result Addr
  pub listen_sctp : Addr → Result ℕ

pub record Session : Type 0 where
  pub cfg : Config
  pub conn : ℕ
  -- `rw` is a TLS connection over `conn`, rather than `conn` itself.
  pub rw_is_tls : Bool
  pub closed : Bool

pub record Listener : Type 0 where
  pub ln : ℕ
  pub cfg : Config

-- The `select` on the context and on the goroutine that calls the library: which is chosen, and
-- what the call comes to, if need be after the `select`.
pub data Race : Type 0 where
  call_first : Result ℕ → Race
  context_first : Error → Result ℕ → Race

-- The result of the goroutine stays in the buffer of `resCh` if the context is chosen.
abbrev pub await : (Result ℕ → Result ℕ) → Race → M ℕ
await wrapped (call_first r) = acquire (wrapped r)
await wrapped (context_first e (ok conn)) = (failed e, opened conn ∷ [])
await wrapped (context_first e (err x)) = (failed e, [])

-- The options that `SetReadBuffer` and `SetWriteBuffer` of the library set.
abbrev pub read_buffer_option : ℕ
read_buffer_option = 0

abbrev pub write_buffer_option : ℕ
write_buffer_option = 1

unfoldable pub apply_tunables : Config → ℕ → M (Unit {0})
apply_tunables cfg conn = do
  when (is_pos cfg.read_buffer) (set_option conn read_buffer_option cfg.read_buffer)
  when (is_pos cfg.write_buffer) (set_option conn write_buffer_option cfg.write_buffer)

-- The session over a connection that was dialled or accepted; a failure of TLS closes it.
unfoldable pub start_session : Config → Result (Unit {0}) → ℕ → M Session
unfolding apply_tunables
start_session cfg tls conn = do
  apply_tunables cfg conn
  when cfg.tls (or_close conn tls)
  pure (record { cfg = cfg; conn = conn; rw_is_tls = cfg.tls; closed = false })

module _ (lib : Library) where
  open lib use {Addr, resolve, listen_sctp}

  unfoldable pub listen : Config → M Listener
  listen cfg = do
    addr ← lift (context "resolve sctp listen addr: %w" (resolve cfg.local_ip cfg.local_port))
    ln ← acquire (context "listen sctp: %w" (listen_sctp addr))
    pure (record { ln = ln; cfg = cfg })

  abbrev pub some_addr : Result Addr → Result (Option Addr)
  some_addr (ok addr) = ok (some addr)
  some_addr (err e) = err e

  unfoldable pub resolve_optional : String → ℤ → Result (Option Addr)
  resolve_optional ip port =
      if str_eq ip "" && is_zero port then ok none else some_addr (resolve ip port)

  module _ (crypto : Crypto)
      (handshake : Option ℤ → TlsConfig crypto.Cert crypto.Pool → Result (Unit {0})) where
    -- `handshakeWithContext`
    abbrev pub handshake_with_context : TlsConfig crypto.Cert crypto.Pool → ℤ → Result (Unit {0})
    handshake_with_context tc timeout = handshake (if is_pos timeout then some timeout else none) tc

    abbrev pub shake :
        String → Config → Result (TlsConfig crypto.Cert crypto.Pool) → Result (Unit {0})
    shake text cfg (err e) = err e
    shake text cfg (ok tc) = context text (handshake_with_context tc cfg.connect_timeout)

    unfoldable pub enable_server_tls : Config → Result (Unit {0})
    enable_server_tls cfg =
        shake "sctp tls server handshake: %w" cfg (sctp_server_tls_config crypto cfg)

    unfoldable pub enable_client_tls : Config → Result (Unit {0})
    enable_client_tls cfg =
        shake "sctp tls client handshake: %w" cfg (sctp_client_tls_config crypto cfg)

    -- `Dial`; the race is that of `DialSCTP` between the two addresses.
    unfoldable pub dial : Config → (Option Addr → Addr → Race) → M Session
    unfolding resolve_optional start_session
    dial cfg race = do
      laddr ← lift (resolve_optional cfg.local_ip cfg.local_port)
      raddr ← lift (context "resolve sctp remote addr: %w" (resolve cfg.remote_ip cfg.remote_port))
      conn ← await (context "dial sctp: %w") (race laddr raddr)
      start_session cfg (enable_client_tls cfg) conn

    -- `Accept`
    unfoldable pub accept : Config → Race → M Session
    unfolding start_session
    accept cfg race = do conn ← await (λ r. r) race; start_session cfg (enable_server_tls cfg) conn

-- `session.Close`: the session after it, and the connections that it closes.
unfoldable pub session_close : Session → Session × List ℕ
session_close s = if s.closed then (s, []) else (record s { closed = true }, s.conn ∷ [])

-- A channel: all channels of a session share its connection.
pub record Channel : Type 0 where
  pub id : ℕ  -- uint16
  pub session : Session

-- `OpenChannel`
unfoldable pub open_channel : Session → ℕ → Channel
open_channel s id = record { id = id; session = s }

-- `AcceptChannel`
unfoldable pub accept_channel : Session → Channel
accept_channel s = record { id = 0; session = s }
