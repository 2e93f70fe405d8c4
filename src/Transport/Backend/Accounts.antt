-- ===== src/Transport/Backend/Accounts.antt =====
-- What becomes of the connections that a transport opens, whichever it is.
use text.Mathlib.Text.{◌==◌ as str_eq}
use proto_test.Base.{ℕ, refl, inl, inr, Bool-cases, List, [], Option, if◌then◌else◌, Result}
use proto_test.Transport.{Config, type_sctp, type_sctp_kernel, type_quic}
use proto_test.Transport.Kernel.Fds.{M, done, failed, waits}
use proto_test.Transport.Kernel.Fds.Owned.{Balanced}
use proto_test.Transport.Kernel.Sockets.{CtxRound}
use proto_test.Transport.Kernel.Session.{DialAnswers, ListenAnswers, AcceptAnswer}
use proto_test.Transport.Kernel.Session.Resources as Kernel
use proto_test.Transport.Sctp.Session.{Race}
use proto_test.Transport.Sctp.Session.Accounts as Sctp
use proto_test.Transport.Sctp.Session.Accounts.{Leaves, Balanced-Leaves, lost, lost_in_dial}
use proto_test.Transport.Quic.Session.Balance as Quic
use proto_test.Transport.Backend.{
  World, Session, over_sctp, over_kernel, over_quic, Listener, on_sctp, on_kernel, on_quic,
  as_interface, listen, dial, accept, listener_close,
}

-- The connection of a session.
abbrev pub connection : Session → ℕ
connection (over_sctp s) = s.conn
connection (over_kernel s) = s.base.fd
connection (over_quic s) = s.conn

as_interface-Leaves :
    {A B : Type 0} (f : A → B) (held : B → ℕ) (others : List ℕ) (m : M A)
    → Leaves (λ a. held (f a)) others m
    → Leaves held others (as_interface f m)
as_interface-Leaves f held others (done a, l) h = h
as_interface-Leaves f held others (failed e, l) h = h
as_interface-Leaves f held others (waits, l) h = h

as_interface-Balanced :
    {A B : Type 0} (f : A → B) (held : B → ℕ) (m : M A)
    → Balanced (λ a. held (f a)) m
    → Leaves held [] (as_interface f m)
as_interface-Balanced f held m h = as_interface-Leaves f held [] m (Balanced-Leaves _ m h)

module _ (w : World) where
  -- The connections that `Dial` and `Accept` may lose: only those of the SCTP library.
  abbrev pub lost_by_dial : Config → (Option w.sctp.Addr → w.sctp.Addr → Race) → List ℕ
  lost_by_dial cfg race = if str_eq cfg.type type_sctp then lost_in_dial w.sctp cfg race else []

  abbrev pub lost_by_accept : Listener → Race → List ℕ
  lost_by_accept (on_sctp l) race = lost race
  lost_by_accept (on_kernel l) race = []
  lost_by_accept (on_quic l) race = []

  pub dial-Leaves :
      (cfg : Config) (k : DialAnswers) (race : Option w.sctp.Addr → w.sctp.Addr → Race)
      → Leaves connection (lost_by_dial cfg race) (dial w cfg k race)
  unfolding dial
  dial-Leaves cfg k race = elim (Bool-cases (str_eq cfg.type type_sctp)) [
    | inl sctp ↦ rw sctp (
        as_interface-Leaves over_sctp connection _ _
          (Sctp.dial-Leaves w.sctp w.crypto w.sctp_handshake cfg race))
    | inr not_sctp ↦ rw not_sctp (elim (Bool-cases (str_eq cfg.type type_sctp_kernel)) [
      | inl kernel ↦ rw kernel (
          as_interface-Balanced over_kernel connection _
            (Kernel.dial-Balanced w.crypto w.kernel_handshake w.net cfg k).0)
      | inr not_kernel ↦ rw not_kernel (elim (Bool-cases (str_eq cfg.type type_quic)) [
        | inl quic ↦
            rw quic (
              as_interface-Balanced over_quic connection _ (Quic.dial-Balanced w.crypto w.quic cfg))
        | inr unknown ↦ rw unknown refl
      ])
    ])
  ]

  pub listen-Leaves : (cfg : Config) (k : ListenAnswers) → Leaves listener_close [] (listen w cfg k)
  unfolding listen
  listen-Leaves cfg k = elim (Bool-cases (str_eq cfg.type type_sctp)) [
    | inl sctp ↦
        rw sctp (as_interface-Balanced on_sctp listener_close _ (Sctp.listen-Balanced w.sctp cfg))
    | inr not_sctp ↦ rw not_sctp (elim (Bool-cases (str_eq cfg.type type_sctp_kernel)) [
      | inl kernel ↦
          rw kernel
            (as_interface-Balanced on_kernel listener_close _ (Kernel.listen-Balanced w.net cfg k))
      | inr not_kernel ↦ rw not_kernel (elim (Bool-cases (str_eq cfg.type type_quic)) [
        | inl quic ↦ rw quic (
            as_interface-Balanced on_quic listener_close _
              (Quic.listen-Balanced w.crypto w.quic cfg))
        | inr unknown ↦ rw unknown refl
      ])
    ])
  ]

  pub accept-Leaves :
      (l : Listener) (race : Race) (answers : List AcceptAnswer) (polls : List CtxRound)
      (accepted : Result ℕ)
      → Leaves connection (lost_by_accept l race) (accept w l race answers polls accepted)
  unfolding accept
  accept-Leaves (on_sctp l) race answers polls accepted =
      as_interface-Leaves over_sctp connection (lost race) _
        (Sctp.accept-Leaves w.sctp w.crypto w.sctp_handshake l.cfg race)
  accept-Leaves (on_kernel l) race answers polls accepted =
      as_interface-Balanced over_kernel connection _
        (Kernel.accept-Balanced w.crypto w.kernel_handshake l.cfg answers polls)
  accept-Leaves (on_quic l) race answers polls accepted =
      as_interface-Balanced over_quic connection _ (Quic.accept-Balanced accepted)
