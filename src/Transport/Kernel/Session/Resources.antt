-- ===== src/Transport/Kernel/Session/Resources.antt =====
-- No descriptor leaks: what `Listen`, `Dial` and `Accept` open is in their result or closed again.
use text.Mathlib.Text.{◌==◌ as str_eq}
use proto_test.Base.{
  ℕ, refl, inl, inr, Bool, true, false, ◌||◌, Option, none, some, ◌==◌, Bool-cases, ℤ, pos, is_zero,
  is_pos, einprogress, eagain, eintr, Result, ok, err, wrap, errno, List, [], ◌∷◌, arith,
  if◌then◌else◌,
}
use proto_test.Transport.{Config}
use proto_test.Transport.Tls.{Crypto, TlsConfig, pick_ip}
use proto_test.Transport.Kernel.FdConn.{
  pollin, pollout, new_fd_conn, Loop, returned, raised, pending,
}
use proto_test.Transport.Kernel.Fds.{M, ◌>>=◌, context, or_close, loop_or_close, pure, fail}
use proto_test.Transport.Kernel.Fds.Owned.{
  Owned, Owned->>=, Owned-or_close, Owned-loop_or_close, Balanced, Balanced-lift, Balanced-acquire,
  WaitsWith, WaitsWith-lift, WaitsWith-acquire, Keeps, Keeps->>=,
}
use proto_test.Transport.Kernel.Sockets.{Net, resolve_sock_addr, poll_fd, CtxRound}
use proto_test.Transport.Kernel.Session.{
  Session, Listener, DialAnswers, ListenAnswers, when, set_option, so_reuseaddr, set_buffers,
  bind_local, finish_connect, start_session, start_listening, listen_on, listen, dial_on, dial,
  accept_on, accept, AcceptAnswer, accept_error, accepted, when_ready,
}

-- The descriptors that a session and a listener hold.
abbrev pub session_fd : Session → ℕ
session_fd s = s.base.fd

abbrev pub listener_fd : Listener → ℕ
listener_fd l = l.fd

pub Owned-when : (fd : ℕ) (b : Bool) (m : M (Unit {0})) → Owned fd m → Owned fd (when b m)
Owned-when fd true m h = h
Owned-when fd false m h = refl

set_buffers-Owned : (cfg : Config) (fd : ℕ) → Owned fd (set_buffers cfg fd)
unfolding set_buffers
set_buffers-Owned cfg fd =
    Owned->>= fd (when (is_pos cfg.read_buffer) _) _ (Owned-when fd (is_pos cfg.read_buffer) _ refl)
      (λ _. Owned-when fd (is_pos cfg.write_buffer) _ refl)

bind_local-Owned :
    (net : Net) (cfg : Config) (k : DialAnswers) (fd : ℕ) → Owned fd (bind_local net cfg k fd)
unfolding bind_local
bind_local-Owned net cfg k fd = Owned-when fd _ _ (
    Owned->>= fd (or_close fd (resolve_sock_addr net _ _)) _ (Owned-or_close fd _)
      (λ _. Owned-or_close fd _))

finish_connect-Owned : (k : DialAnswers) (fd : ℕ) (c : Option ℕ) → Owned fd (finish_connect k fd c)
unfolding finish_connect
finish_connect-Owned k fd none = refl
finish_connect-Owned k fd (some e) = elim (Bool-cases (e == einprogress)) [
  | inl waiting ↦ rw waiting (
      Owned->>= fd (loop_or_close fd (poll_fd pollout k.polls)) _ (Owned-loop_or_close fd _)
        (λ _. Owned-or_close fd _))
  | inr other ↦ rw other (Owned-or_close {A = Unit {0}} fd (err (wrap "connect: %w" (errno e))))
]

module _ (lib : Crypto)
    (handshake : Option ℤ → TlsConfig lib.Cert lib.Pool → Result (Unit {0})) where
  start_session-Keeps :
      (cfg : Config) (tls : Result (Unit {0})) (fd : ℕ)
      → Keeps session_fd fd (start_session lib handshake cfg tls fd)
  unfolding new_fd_conn
  start_session-Keeps cfg tls fd =
      Keeps->>= session_fd fd (when cfg.tls (or_close fd tls)) _
        (Owned-when fd cfg.tls _ (Owned-or_close fd tls)) (λ _. (refl, refl))

  dial_on-Keeps :
      (net : Net) (cfg : Config) (k : DialAnswers) (fd : ℕ)
      → Keeps session_fd fd (dial_on lib handshake net cfg k fd)
  unfolding dial_on
  dial_on-Keeps net cfg k fd = Keeps->>= session_fd fd (or_close fd _) _ (Owned-or_close fd _) λ _.
      Keeps->>= session_fd fd (set_buffers cfg fd) _ (set_buffers-Owned cfg fd) λ _.
        Keeps->>= session_fd fd (bind_local net cfg k fd) _ (bind_local-Owned net cfg k fd) λ _.
          Keeps->>= session_fd fd (finish_connect k fd k.connect) _
            (finish_connect-Owned k fd k.connect) λ _. start_session-Keeps cfg _ fd

  -- `Dial` leaks no descriptor, on any answers of the kernel: when it fails, every descriptor that
  -- it opened is closed again, exactly once; when it succeeds, exactly the descriptor of the new
  -- session is open; and while it waits for the connection, exactly the descriptor is open that
  -- `socket` returned.
  pub dial-Balanced :
      (net : Net) (cfg : Config) (k : DialAnswers)
      → Balanced session_fd (dial lib handshake net cfg k)
        × WaitsWith k.socket (dial lib handshake net cfg k)
  unfolding dial
  dial-Balanced net cfg k = elim (Bool-cases (str_eq cfg.remote_ip "" || is_zero cfg.remote_port)) [
    | inl missing ↦ rw missing (refl, tt)
    | inr given ↦ rw given (
        (
          Balanced-lift _ (resolve_sock_addr net cfg.remote_ip cfg.remote_port) _
              λ _. Balanced-acquire _ (context "socket: %w" k.socket) _ (dial_on-Keeps net cfg k),
          WaitsWith-lift k.socket (resolve_sock_addr net cfg.remote_ip cfg.remote_port) _
              λ _. WaitsWith-acquire "socket: %w" k.socket _ (λ fd. (dial_on-Keeps net cfg k fd).0),
        ))
  ]

  accept_on-Keeps :
      (cfg : Config) (nonblock : Result (Unit {0})) (fd : ℕ)
      → Keeps session_fd fd (accept_on lib handshake cfg nonblock fd)
  unfolding accept_on
  accept_on-Keeps cfg nonblock fd =
      Keeps->>= session_fd fd (or_close fd _) _ (Owned-or_close fd _)
        λ _. start_session-Keeps cfg _ fd

  ready-Balanced :
      (l : Loop CtxRound (Unit {0})) (f : List CtxRound → M Session)
      → ((rest : List CtxRound) → Balanced session_fd (f rest))
      → Balanced session_fd (when_ready l f)
  ready-Balanced pending f h = ([], refl, omega arith)
  ready-Balanced (raised e rest) f h = refl
  ready-Balanced (returned _ rest) f h = h rest

  -- `Accept` leaks no descriptor, on any answers of the kernel, however often it has to try again:
  -- a descriptor that it accepted is closed again, once, if it fails, and is the new session's if
  -- it succeeds.
  pub accept-Balanced :
      (cfg : Config) (answers : List AcceptAnswer) (rs : List CtxRound)
      → Balanced session_fd (accept lib handshake cfg answers rs)
  unfolding accept
  accept-Balanced cfg [] rs = ([], refl, omega arith)
  accept-Balanced cfg (accept_error e ∷ more) rs =
      ready-Balanced (poll_fd pollin rs) _ λ rest. retry rest (accept-Balanced cfg more rest)
    where
      retry :
          (rest : List CtxRound)
          → Balanced session_fd (accept lib handshake cfg more rest)
          → Balanced session_fd (
              if e == eagain || e == eintr
              then accept lib handshake cfg more rest
              else fail (wrap "accept: %w" (errno e)))
      retry rest h = elim (Bool-cases (e == eagain || e == eintr)) [
        | inl again ↦ rw again h
        | inr other ↦ rw other refl
      ]
  accept-Balanced cfg (accepted fd nonblock ∷ more) rs =
      ready-Balanced (poll_fd pollin rs) _ λ rest.
        Balanced-acquire session_fd (ok fd) (accept_on lib handshake cfg nonblock)
          (accept_on-Keeps cfg nonblock)

module _ (net : Net) where
  start_listening-Keeps :
      (cfg : Config) (r : Result (Unit {0})) (fd : ℕ)
      → Keeps listener_fd fd (start_listening cfg r fd)
  unfolding start_listening
  start_listening-Keeps cfg r fd =
      Keeps->>= listener_fd fd (or_close fd (context "listen: %w" r))
        (λ _. pure (record { fd = fd; cfg = cfg })) (Owned-or_close fd (context "listen: %w" r))
        (λ _. (refl, refl))

  listen_on-Keeps :
      (cfg : Config) (k : ListenAnswers) (fd : ℕ) → Keeps listener_fd fd (listen_on net cfg k fd)
  unfolding listen_on
  listen_on-Keeps cfg k fd =
      let bound = λ (_ : Unit {0}). start_listening cfg k.listen fd in
      let tuned =
        λ (_ : Unit {0}). or_close {A = Unit {0}} fd (context "bind: %w" k.bind) >>= bound in
      let reusable = λ (_ : Unit {0}). set_buffers cfg fd >>= tuned in
      let nonblocking = λ (_ : Unit {0}). set_option fd so_reuseaddr (pos 1) >>= reusable in
      Keeps->>= listener_fd fd (or_close fd _) nonblocking (Owned-or_close fd _) λ _.
        Keeps->>= listener_fd fd (set_option fd so_reuseaddr (pos 1)) reusable refl λ _.
          Keeps->>= listener_fd fd (set_buffers cfg fd) tuned (set_buffers-Owned cfg fd) λ _.
            Keeps->>= listener_fd fd (or_close fd (context "bind: %w" k.bind)) bound
              (Owned-or_close fd _) λ _. start_listening-Keeps cfg k.listen fd

  -- `Listen` leaks no descriptor, on any answers of the kernel: what it opened is closed again,
  -- once, when it fails, and is the listener's when it succeeds.
  pub listen-Balanced : (cfg : Config) (k : ListenAnswers) → Balanced listener_fd (listen net cfg k)
  unfolding listen
  listen-Balanced cfg k =
      Balanced-lift _ (resolve_sock_addr net (pick_ip cfg.local_ip "0.0.0.0") cfg.local_port) _
        λ _. Balanced-acquire _ (context "socket: %w" k.socket) _ (listen_on-Keeps cfg k)
