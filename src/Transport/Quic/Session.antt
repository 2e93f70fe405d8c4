-- ===== src/Transport/Quic/Session.antt =====
-- pkg/transport/quic/quic.go: `Listen`, `Dial`, `Accept`, the channels of a session and its end, over
-- the results of quic-go. Connections, listeners and streams are numbers.
pub mod Balance
use Prim.Native.Nat.{bit_and}
use Prim.Native.String.{String}
use text.Mathlib.Text.{◌==◌ as str_eq}
use proto_test.Base.{
  ℕ, Bool, true, false, ◌||◌, List, [], ◌∷◌, if◌then◌else◌, ℤ, is_zero, Error, message, Result, ok,
  err, ◌>>=◌ as and_then,
}
use proto_test.Transport.{Config}
use proto_test.Transport.Tls.{
  Crypto, TlsConfig, pick_ip, quic_server_tls_config, quic_client_tls_config,
}
use proto_test.Transport.Kernel.Fds.{M, ◌>>=◌, ◌>>◌, pure, fail, lift, context, acquire}
use proto_test.Transport.Quic.{QuicConfig, quic_config}

pub record Listener : Type 0 where
  pub ln : ℕ

pub record Session : Type 0 where
  pub conn : ℕ
  -- `once` has run.
  pub closed : Bool

pub record Channel : Type 0 where
  pub id : ℕ  -- uint16
  pub stream : ℕ

-- `ListenAddr` and `DialAddr` on the text "ip:port".
pub record Library (Cert Pool : Type 0) : Type 0 where
  pub listen_addr : String → ℤ → TlsConfig Cert Pool → QuicConfig → Result ℕ
  pub dial_addr : String → ℤ → TlsConfig Cert Pool → QuicConfig → Result ℕ

module _ (crypto : Crypto) (lib : Library crypto.Cert crypto.Pool) where
  unfoldable pub listen : Config → M Listener
  unfolding quic_config quic_server_tls_config
  listen cfg = do
    tls ← lift (quic_server_tls_config crypto cfg)
    ln ← acquire (
        context "listen quic: %w"
          (lib.listen_addr (pick_ip cfg.local_ip "0.0.0.0") cfg.local_port tls (quic_config cfg)))
    pure (record { ln = ln })

  unfoldable pub dial : Config → M Session
  unfolding quic_config quic_client_tls_config
  dial cfg =
      if str_eq cfg.remote_ip "" || is_zero cfg.remote_port
      then fail (message "remote_ip and remote_port are required for quic dial")
      else (do
        tls ← lift (quic_client_tls_config crypto cfg)
        conn ← acquire (
            context "dial quic: %w"
              (lib.dial_addr cfg.remote_ip cfg.remote_port tls (quic_config cfg)))
        pure (record { conn = conn; closed = false }))

-- `Accept`, with what the listener of quic-go returns.
unfoldable pub accept : Result ℕ → M Session
accept accepted = do conn ← acquire accepted; pure (record { conn = conn; closed = false })

-- `OpenChannel`, with what `OpenStreamSync` returns.
unfoldable pub open_channel : Result ℕ → ℕ → Result Channel
open_channel (ok stream) id = ok (record { id = id; stream = stream })
open_channel (err e) id = err e

-- `AcceptChannel`, with the stream of `AcceptStream` and its number.
unfoldable pub accept_channel : Result (ℕ × ℕ) → Result Channel
accept_channel (ok (stream, stream_id)) =
    ok (record { id = bit_and stream_id 0xFFFF; stream = stream })
accept_channel (err e) = err e

-- `session.Close`: the session after it, and the connections that it closes.
unfoldable pub session_close : Session → Session × List ℕ
session_close s = if s.closed then (s, []) else (record s { closed = true }, s.conn ∷ [])

-- `channel.Close` and `listener.Close`: the stream and the listener of quic-go that they close.
abbrev pub channel_close : Channel → ℕ
channel_close ch = ch.stream

abbrev pub listener_close : Listener → ℕ
listener_close l = l.ln
