-- ===== src/Load/Open/Fresh.antt =====
-- A session that was just dialled has not been closed: closing it closes its connection.
use text.Mathlib.Text.{◌==◌ as str_eq}
use proto_test.Base.{ℕ, ◌≡◌, refl, inl, inr, ◌||◌, Bool-cases, [], ◌∷◌, Option, is_zero, Result}
use proto_test.Transport.{Config, type_sctp, type_sctp_kernel, type_quic}
use proto_test.Transport.Kernel.FdConn.{new_fd_conn, close}
use proto_test.Transport.Kernel.Fds.{
  M, Reply, done, failed, waits, ◌>>=◌, lift, context, acquire, or_close,
}
use proto_test.Transport.Kernel.Sockets.{resolve_sock_addr}
use proto_test.Transport.Kernel.Session as Kernel
use proto_test.Transport.Kernel.Session.{DialAnswers}
use proto_test.Transport.Sctp.Session as Sctp
use proto_test.Transport.Sctp.Session.{Race}
use proto_test.Transport.Quic.Session as Quic
use proto_test.Transport.Quic.{quic_config}
use proto_test.Transport.Tls.{quic_client_tls_config}
use proto_test.Transport.Backend.{
  World, Session, over_sctp, over_kernel, over_quic, as_interface, dial, session_close,
}
use proto_test.Transport.Backend.Accounts.{connection}

-- The value of a call, if it has one, has the property.
abbrev pub Yields : {A : Type 0} → (A → Type 0) → Reply A → Type 0
Yields P (done a) = P a
Yields P (failed e) = Unit {0}
Yields P waits = Unit {0}

abbrev pub IsFresh : Session → Type 0
IsFresh s = (session_close s).1 ≡ connection s ∷ []

Yields->>= :
    {A B : Type 0} (P : B → Type 0) (m : M A) (f : A → M B)
    → ((a : A) → Yields P (f a).0)
    → Yields P (m >>= f).0
Yields->>= P (done a, l) f h = h a
Yields->>= P (failed e, l) f h = tt
Yields->>= P (waits, l) f h = tt

as_interface-Yields :
    {A B : Type 0} (P : B → Type 0) (f : A → B) (m : M A)
    → Yields (λ a. P (f a)) m.0
    → Yields P (as_interface f m).0
as_interface-Yields P f (done a, l) h = h
as_interface-Yields P f (failed e, l) h = tt
as_interface-Yields P f (waits, l) h = tt

SctpFresh : Sctp.Session → Type 0
SctpFresh s = IsFresh (over_sctp s)

KernelFresh : Kernel.Session → Type 0
KernelFresh s = IsFresh (over_kernel s)

QuicFresh : Quic.Session → Type 0
QuicFresh s = IsFresh (over_quic s)

sctp_start_session-Yields :
    (cfg : Config) (tls : Result (Unit {0})) (conn : ℕ)
    → Yields SctpFresh (Sctp.start_session cfg tls conn).0
unfolding SctpFresh Sctp.start_session session_close Sctp.session_close
sctp_start_session-Yields cfg tls conn =
    Yields->>= SctpFresh (Sctp.apply_tunables cfg conn) _
      λ _. Yields->>= SctpFresh (Kernel.when cfg.tls (or_close conn tls)) _ λ _. refl

module _ (w : World) (cfg : Config) where
  sctp-Yields :
      (race : Option w.sctp.Addr → w.sctp.Addr → Race)
      → Yields SctpFresh (Sctp.dial w.sctp w.crypto w.sctp_handshake cfg race).0
  unfolding Sctp.dial
  sctp-Yields race =
      Yields->>= SctpFresh (lift (Sctp.resolve_optional w.sctp cfg.local_ip cfg.local_port)) _ λ l.
        Yields->>= SctpFresh
          (lift
            (context "resolve sctp remote addr: %w" (w.sctp.resolve cfg.remote_ip cfg.remote_port)))
          _
          λ r.
            Yields->>= SctpFresh (Sctp.await (context "dial sctp: %w") (race l r)) _
              λ conn. sctp_start_session-Yields cfg _ conn

  kernel-Yields :
      (k : DialAnswers) → Yields KernelFresh (Kernel.dial w.crypto w.kernel_handshake w.net cfg k).0
  unfolding Kernel.dial Kernel.dial_on KernelFresh session_close Kernel.session_close close
      new_fd_conn
  kernel-Yields k = elim (Bool-cases (str_eq cfg.remote_ip "" || is_zero cfg.remote_port)) [
    | inl missing ↦ rw missing tt
    | inr given ↦ rw given (
        Yields->>= KernelFresh (lift (resolve_sock_addr w.net cfg.remote_ip cfg.remote_port)) _ λ _.
          Yields->>= KernelFresh (acquire (context "socket: %w" k.socket)) _ λ fd.
            Yields->>= KernelFresh (or_close fd (context "set nonblock: %w" k.set_nonblock)) _ λ _.
              Yields->>= KernelFresh (Kernel.set_buffers cfg fd) _ λ _.
                Yields->>= KernelFresh (Kernel.bind_local w.net cfg k fd) _ λ _.
                  Yields->>= KernelFresh (Kernel.finish_connect k fd k.connect) _
                    λ _. Yields->>= KernelFresh (Kernel.when cfg.tls (or_close fd _)) _ λ _. refl)
  ]

  quic-Yields : Yields QuicFresh (Quic.dial w.crypto w.quic cfg).0
  unfolding Quic.dial QuicFresh session_close Quic.session_close
  quic-Yields = elim (Bool-cases (str_eq cfg.remote_ip "" || is_zero cfg.remote_port)) [
    | inl missing ↦ rw missing tt
    | inr given ↦ rw given (
        Yields->>= QuicFresh (lift (quic_client_tls_config w.crypto cfg)) _ λ tls.
          Yields->>= QuicFresh
            (acquire (
              context "dial quic: %w"
                (w.quic.dial_addr cfg.remote_ip cfg.remote_port tls (quic_config cfg))))
            _ λ conn. refl)
  ]

  pub dial-Yields :
      (k : DialAnswers) (race : Option w.sctp.Addr → w.sctp.Addr → Race)
      → Yields IsFresh (dial w cfg k race).0
  unfolding dial SctpFresh KernelFresh QuicFresh
  dial-Yields k race = elim (Bool-cases (str_eq cfg.type type_sctp)) [
    | inl sctp ↦ rw sctp (as_interface-Yields IsFresh over_sctp _ (sctp-Yields race))
    | inr not_sctp ↦ rw not_sctp (elim (Bool-cases (str_eq cfg.type type_sctp_kernel)) [
      | inl kernel ↦ rw kernel (as_interface-Yields IsFresh over_kernel _ (kernel-Yields k))
      | inr not_kernel ↦ rw not_kernel (elim (Bool-cases (str_eq cfg.type type_quic)) [
        | inl quic ↦ rw quic (as_interface-Yields IsFresh over_quic _ quic-Yields)
        | inr unknown ↦ rw unknown tt
      ])
    ])
  ]
