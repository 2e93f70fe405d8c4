-- ===== src/Transport/Kernel/Session/Ending.antt =====
-- `Dial` and `Accept` end with their context.
use text.Mathlib.Text.{◌==◌ as str_eq}
use proto_test.Base.{
  ℕ, suc, ◌<◌, ◌≡◌, refl, inl, inr, Bool, true, false, ◌||◌, Option, none, some, ◌==◌, Bool-cases,
  Option-cases, ℤ, is_zero, is_pos, einprogress, eagain, eintr, Error, Result, ok, err, wrap, errno,
  List, [], ◌∷◌, ◌++◌, length, arith, if◌then◌else◌,
}
use proto_test.Transport.{Config}
use proto_test.Transport.Tls.{Crypto, TlsConfig}
use proto_test.Transport.Kernel.FdConn.{
  pollin, pollout, Verdict, again, usable, give_up, Loop, returned, raised, pending,
}
use proto_test.Transport.Kernel.Fds.{
  Reply, done, failed, waits, M, ◌>>=◌, context, acquire, lift, or_close, loop_or_close, fail,
}
use proto_test.Transport.Kernel.Sockets.{
  Net, CtxRound, judge_poll, after, poll_fd, resolve_sock_addr,
}
use proto_test.Transport.Kernel.Session.{
  Session, DialAnswers, AcceptAnswer, accept_error, accepted, when, set_buffers, bind_local,
  finish_connect, start_session, dial_on, dial, accept_on, accept, when_ready,
}

-- A call returns, with a value or an error.
abbrev IsBack : {A : Type 0} → Reply A → Type 0
IsBack (done a) = Unit {0}
IsBack (failed e) = Unit {0}
IsBack waits = ⊥

abbrev pub Returns : {A : Type 0} → M A → Type 0
Returns m = IsBack m.0

Returns->>= :
    {A B : Type 0} (m : M A) (f : A → M B)
    → Returns m
    → ((a : A) → Returns (f a))
    → Returns (m >>= f)
Returns->>= (done a, l) f h k = k a
Returns->>= (failed e, l) f h k = tt
Returns->>= (waits, l) f h k = h

Returns-or_close : {A : Type 0} (fd : ℕ) (r : Result A) → Returns (or_close fd r)
Returns-or_close fd (ok a) = tt
Returns-or_close fd (err e) = tt

Returns-lift : {A : Type 0} (r : Result A) → Returns (lift r)
Returns-lift (ok a) = tt
Returns-lift (err e) = tt

Returns-acquire : (r : Result ℕ) → Returns (acquire r)
Returns-acquire (ok a) = tt
Returns-acquire (err e) = tt

Returns-when : (b : Bool) (m : M (Unit {0})) → Returns m → Returns (when b m)
Returns-when true m h = h
Returns-when false m h = tt

module _ (r : CtxRound) (rest : List CtxRound) (e : Error) (over : r.ctx_err ≡ some e) where
  -- A polling loop that meets the cancelled round: it fails, or the socket was ready before, at one
  -- of fewer rounds.
  abbrev Polled : ℕ → Loop CtxRound (Unit {0}) → Type 0
  Polled n (returned _ left) =
      (before : List CtxRound) × (left ≡ before ++ (r ∷ rest)) × (length before < n)
  Polled n (raised x left) = Unit {0}
  Polled n pending = ⊥

  Polled-up : (n : ℕ) (l : Loop CtxRound (Unit {0})) → Polled n l → Polled (suc n) l
  Polled-up n (returned _ left) (b, h, k) = (b, h, omega (arith, k))
  Polled-up n (raised x left) h = tt
  Polled-up n pending h = h

  after-Polled :
      (v : Verdict) (before : List CtxRound) (more : Loop CtxRound (Unit {0}))
      → Polled (length before) more
      → Polled (suc (length before)) (after v (before ++ (r ∷ rest)) more)
  after-Polled again before more h = Polled-up (length before) more h
  after-Polled usable before more h = (before, refl, omega arith)
  after-Polled (give_up x) before more h = tt

  poll_fd-Polled :
      (events : ℕ) (before : List CtxRound)
      → Polled (length before) (poll_fd events (before ++ (r ∷ rest)))
  unfolding poll_fd
  poll_fd-Polled events [] = rw (over, poll_fd) tt
  poll_fd-Polled events (b ∷ before) = elim (Option-cases b.ctx_err) [
    | inl none' ↦
        rw (none', poll_fd)
          (after-Polled (judge_poll events b.answer) before (poll_fd events (before ++ (r ∷ rest)))
            (poll_fd-Polled events before))
    | inr (x, some') ↦ rw (some', poll_fd) tt
  ]

  Returns-loop_or_close :
      (fd n : ℕ) (l : Loop CtxRound (Unit {0})) → Polled n l → Returns (loop_or_close fd l)
  Returns-loop_or_close fd n (returned a left) h = tt
  Returns-loop_or_close fd n (raised x left) h = tt
  Returns-loop_or_close fd n pending h = absurd h

  module _ (lib : Crypto)
      (handshake : Option ℤ → TlsConfig lib.Cert lib.Pool → Result (Unit {0})) where
    start_session-Returns :
        (cfg : Config) (tls : Result (Unit {0})) (fd : ℕ)
        → Returns (start_session lib handshake cfg tls fd)
    start_session-Returns cfg tls fd =
        Returns->>= (when cfg.tls (or_close fd tls)) _
          (Returns-when cfg.tls _ (Returns-or_close fd tls)) (λ _. tt)

    set_buffers-Returns : (cfg : Config) (fd : ℕ) → Returns (set_buffers cfg fd)
    unfolding set_buffers
    set_buffers-Returns cfg fd =
        Returns->>= (when (is_pos cfg.read_buffer) _) _ (Returns-when (is_pos cfg.read_buffer) _ tt)
          (λ _. Returns-when (is_pos cfg.write_buffer) _ tt)

    bind_local-Returns :
        (net : Net) (cfg : Config) (k : DialAnswers) (fd : ℕ) → Returns (bind_local net cfg k fd)
    unfolding bind_local
    bind_local-Returns net cfg k fd = Returns-when _ _ (
        Returns->>= (or_close fd (resolve_sock_addr net _ _)) _ (Returns-or_close fd _)
          (λ _. Returns-or_close fd _))

    finish_connect-Returns :
        (k : DialAnswers) (fd : ℕ) (c : Option ℕ) (before : List CtxRound)
        → k.polls ≡ before ++ (r ∷ rest)
        → Returns (finish_connect k fd c)
    unfolding finish_connect
    finish_connect-Returns k fd none before h = tt
    finish_connect-Returns k fd (some x) before h = elim (Bool-cases (x == einprogress)) [
      | inl waiting ↦ rw waiting (
          Returns->>= (loop_or_close fd (poll_fd pollout k.polls)) _
            (Returns-loop_or_close fd (length before) (poll_fd pollout k.polls)
              (rw h (poll_fd-Polled pollout before)))
            (λ _. Returns-or_close fd _))
      | inr other ↦
          rw other (Returns-or_close {A = Unit {0}} fd (err (wrap "connect: %w" (errno x))))
    ]

    dial-Returns :
        (net : Net) (cfg : Config) (k : DialAnswers) (before : List CtxRound)
        → k.polls ≡ before ++ (r ∷ rest)
        → Returns (dial lib handshake net cfg k)
    unfolding dial dial_on
    dial-Returns net cfg k before h =
        elim (Bool-cases (str_eq cfg.remote_ip "" || is_zero cfg.remote_port)) [
          | inl missing ↦ rw missing tt
          | inr given ↦ rw given (
              Returns->>= (lift (resolve_sock_addr net cfg.remote_ip cfg.remote_port)) _
                (Returns-lift _)
                λ _.
                  Returns->>= (acquire (context "socket: %w" k.socket)) _ (Returns-acquire _) λ fd.
                    Returns->>= (or_close fd _) _ (Returns-or_close fd _) λ _.
                      Returns->>= (set_buffers cfg fd) _ (set_buffers-Returns cfg fd) λ _.
                        Returns->>= (bind_local net cfg k fd) _ (bind_local-Returns net cfg k fd)
                          λ _.
                            Returns->>= (finish_connect k fd k.connect) _
                              (finish_connect-Returns k fd k.connect before h)
                              λ _. start_session-Returns cfg _ fd)
        ]

    ready-Returns :
        (n : ℕ) (l : Loop CtxRound (Unit {0})) (f : List CtxRound → M Session)
        → Polled n l
        → ((before : List CtxRound) → length before < n → Returns (f (before ++ (r ∷ rest))))
        → Returns (when_ready l f)
    ready-Returns n (returned _ left) f (before, same, less) k = rw same (k before less)
    ready-Returns n (raised x left) f h k = tt
    ready-Returns n pending f h k = absurd h

    accept-Returns :
        (cfg : Config) (answers : List AcceptAnswer) (before : List CtxRound)
        → length before < length answers
        → Returns (accept lib handshake cfg answers (before ++ (r ∷ rest)))
    unfolding accept
    accept-Returns cfg [] before h = absurd (omega arith)
    accept-Returns cfg (accept_error x ∷ more) before h =
        ready-Returns (length before) (poll_fd pollin (before ++ (r ∷ rest))) _
          (poll_fd-Polled pollin before)
          λ left less. retry left (accept-Returns cfg more left (omega (arith, less, h)))
      where
        retry :
            (left : List CtxRound)
            → Returns (accept lib handshake cfg more (left ++ (r ∷ rest)))
            → Returns (
                if x == eagain || x == eintr
                then accept lib handshake cfg more (left ++ (r ∷ rest))
                else fail (wrap "accept: %w" (errno x)))
        retry left k = elim (Bool-cases (x == eagain || x == eintr)) [
          | inl again' ↦ rw again' k
          | inr other ↦ rw other tt
        ]
    accept-Returns cfg (accepted fd nonblock ∷ more) before h =
        ready-Returns (length before) (poll_fd pollin (before ++ (r ∷ rest))) _
          (poll_fd-Polled pollin before)
          λ left less.
            unfold accept_on in
            Returns->>= (or_close fd (context "set nonblock: %w" nonblock)) _
              (Returns-or_close fd _) λ _. start_session-Returns cfg _ fd

    -- With a round in which the context is done among those that a polling loop is given, after any
    -- others, `Dial` and `Accept` return, with a value or an error, whatever the kernel answers, if the
    -- TLS handshake comes to a result; for `Accept` there are more answers of `accept` than rounds
    -- before it.
    pub dial-accept-Returns :
        (net : Net) (cfg : Config) (k : DialAnswers) (answers : List AcceptAnswer)
        (before : List CtxRound)
        → k.polls ≡ before ++ (r ∷ rest)
        → length before < length answers
        → Returns (dial lib handshake net cfg k)
          × Returns (accept lib handshake cfg answers (before ++ (r ∷ rest)))
    dial-accept-Returns net cfg k answers before h less =
        (dial-Returns net cfg k before h, accept-Returns cfg answers before less)
