-- ===== src/Transport/Quic/Session/Balance.antt =====
-- What `Listen`, `Dial` and `Accept` of QUIC open is in their result.
use text.Mathlib.Text.{◌==◌ as str_eq}
use proto_test.Base.{ℕ, refl, inl, inr, Bool-cases, ◌||◌, is_zero, Result}
use proto_test.Transport.{Config}
use proto_test.Transport.Tls.{Crypto, pick_ip, quic_server_tls_config, quic_client_tls_config}
use proto_test.Transport.Kernel.Fds.{context}
use proto_test.Transport.Kernel.Fds.Owned.{Balanced, Balanced-lift, Balanced-acquire}
use proto_test.Transport.Quic.{quic_config}
use proto_test.Transport.Quic.Session.{Listener, Session, Library, listen, dial, accept}

abbrev pub listener_ln : Listener → ℕ
listener_ln l = l.ln

abbrev pub session_conn : Session → ℕ
session_conn s = s.conn

module _ (crypto : Crypto) (lib : Library crypto.Cert crypto.Pool) where
  pub listen-Balanced : (cfg : Config) → Balanced listener_ln (listen crypto lib cfg)
  unfolding listen
  listen-Balanced cfg = Balanced-lift _ (quic_server_tls_config crypto cfg) _ λ tls.
      Balanced-acquire _
        (context "listen quic: %w"
          (lib.listen_addr (pick_ip cfg.local_ip "0.0.0.0") cfg.local_port tls (quic_config cfg)))
        _ (λ ln. (refl, refl))

  pub dial-Balanced : (cfg : Config) → Balanced session_conn (dial crypto lib cfg)
  unfolding dial
  dial-Balanced cfg = elim (Bool-cases (str_eq cfg.remote_ip "" || is_zero cfg.remote_port)) [
    | inl missing ↦ rw missing refl
    | inr given ↦ rw given (
        Balanced-lift _ (quic_client_tls_config crypto cfg) _ λ tls.
          Balanced-acquire _
            (context "dial quic: %w"
              (lib.dial_addr cfg.remote_ip cfg.remote_port tls (quic_config cfg)))
            _ (λ conn. (refl, refl)))
  ]

pub accept-Balanced : (accepted : Result ℕ) → Balanced session_conn (accept accepted)
unfolding accept
accept-Balanced accepted = Balanced-acquire session_conn accepted _ (λ conn. (refl, refl))
