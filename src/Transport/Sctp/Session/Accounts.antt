-- ===== src/Transport/Sctp/Session/Accounts.antt =====
-- What becomes of the connections that `Dial` and `Accept` ask for.
use proto_test.Base.{
  ℕ, ◌≤◌, length, ◌≡◌, refl, List, [], ◌∷◌, Option, some, ℤ, is_pos, Result, ok, err,
}
use proto_test.Transport.{Config}
use proto_test.Transport.Tls.{Crypto, TlsConfig}
use proto_test.Transport.Kernel.Fds.{
  M, ◌>>=◌, lift, acquire, or_close, context, done, failed, waits, replay,
}
use proto_test.Transport.Kernel.Fds.Owned.{
  Owned, Owned->>=, Owned-or_close, Balanced, Balanced-lift, Balanced-acquire, Keeps, Keeps->>=,
}
use proto_test.Transport.Kernel.Session.{when}
use proto_test.Transport.Kernel.Session.Resources.{Owned-when}
use proto_test.Transport.Sctp.Session.{
  Library, Session, Listener, Race, call_first, context_first, await, apply_tunables, start_session,
  resolve_optional, enable_client_tls, listen, dial, accept,
}

abbrev pub session_conn : Session → ℕ
session_conn s = s.conn

-- A connection that the library yields after the context was chosen: no one gets it.
abbrev pub lost : Race → List ℕ
lost (call_first r) = []
lost (context_first e (ok conn)) = conn ∷ []
lost (context_first e (err x)) = []

-- What is open after a call that starts with nothing open: the connection of its value, and these.
abbrev pub Leaves : {A : Type 0} → (A → ℕ) → List ℕ → M A → Type 0
Leaves held others (done a, l) = replay [] l ≡ some (held a ∷ others)
Leaves held others (failed e, l) = replay [] l ≡ some others
Leaves held others (waits, l) = (fds : List ℕ) × (replay [] l ≡ some fds) × (length fds ≤ 1)

pub Balanced-Leaves : {A : Type 0} (held : A → ℕ) (m : M A) → Balanced held m → Leaves held [] m
Balanced-Leaves held (done a, l) h = h
Balanced-Leaves held (failed e, l) h = h
Balanced-Leaves held (waits, l) h = h

apply_tunables-Owned : (cfg : Config) (conn : ℕ) → Owned conn (apply_tunables cfg conn)
unfolding apply_tunables
apply_tunables-Owned cfg conn =
    Owned->>= conn (when (is_pos cfg.read_buffer) _) _
      (Owned-when conn (is_pos cfg.read_buffer) _ refl)
      (λ _. Owned-when conn (is_pos cfg.write_buffer) _ refl)

start_session-Keeps :
    (cfg : Config) (tls : Result (Unit {0})) (conn : ℕ)
    → Keeps session_conn conn (start_session cfg tls conn)
unfolding start_session
start_session-Keeps cfg tls conn =
    Keeps->>= session_conn conn (apply_tunables cfg conn) _ (apply_tunables-Owned cfg conn) λ _.
      Keeps->>= session_conn conn (when cfg.tls (or_close conn tls)) _
        (Owned-when conn cfg.tls _ (Owned-or_close conn tls)) (λ _. (refl, refl))

await-Leaves :
    (wrapped : Result ℕ → Result ℕ) (cfg : Config) (tls : Result (Unit {0})) (race : Race)
    → Leaves session_conn (lost race) (await wrapped race >>= start_session cfg tls)
await-Leaves wrapped cfg tls (call_first r) =
    Balanced-Leaves session_conn (acquire (wrapped r) >>= start_session cfg tls) (
      Balanced-acquire session_conn (wrapped r) (start_session cfg tls)
        (start_session-Keeps cfg tls))
await-Leaves wrapped cfg tls (context_first e (ok conn)) = refl
await-Leaves wrapped cfg tls (context_first e (err x)) = refl

module _ (lib : Library) where
  -- What the race of `Dial` loses, which is only run with both addresses.
  abbrev pub lost_between :
      (Option lib.Addr → lib.Addr → Race) → Result (Option lib.Addr) → Result lib.Addr → List ℕ
  lost_between race (ok laddr) (ok raddr) = lost (race laddr raddr)
  lost_between race (err e) raddr = []
  lost_between race (ok laddr) (err e) = []

  abbrev pub lost_in_dial : Config → (Option lib.Addr → lib.Addr → Race) → List ℕ
  lost_in_dial cfg race =
      lost_between race (resolve_optional lib cfg.local_ip cfg.local_port)
        (lib.resolve cfg.remote_ip cfg.remote_port)

  pub listen-Balanced : (cfg : Config) → Balanced (λ (l : Listener). l.ln) (listen lib cfg)
  unfolding listen
  listen-Balanced cfg =
      Balanced-lift _
        (context "resolve sctp listen addr: %w" (lib.resolve cfg.local_ip cfg.local_port)) _
        λ addr.
          Balanced-acquire _ (context "listen sctp: %w" (lib.listen_sctp addr)) _
            (λ ln. (refl, refl))

  module _ (crypto : Crypto)
      (handshake : Option ℤ → TlsConfig crypto.Cert crypto.Pool → Result (Unit {0}))
      (cfg : Config) where
    between-Leaves :
        (race : Option lib.Addr → lib.Addr → Race) (l : Result (Option lib.Addr))
        (r : Result lib.Addr)
        → Leaves session_conn (lost_between race l r) (
            lift l >>= λ laddr. lift (context "resolve sctp remote addr: %w" r) >>= λ raddr.
            (await (context "dial sctp: %w") (race laddr raddr)
              >>= start_session cfg (enable_client_tls lib crypto handshake cfg)))
    between-Leaves race (err e) r = refl
    between-Leaves race (ok laddr) (err e) = refl
    between-Leaves race (ok laddr) (ok raddr) = await-Leaves _ cfg _ (race laddr raddr)

    pub dial-Leaves :
        (race : Option lib.Addr → lib.Addr → Race)
        → Leaves session_conn (lost_in_dial cfg race) (dial lib crypto handshake cfg race)
    unfolding dial
    dial-Leaves race = between-Leaves race _ _

    pub accept-Leaves :
        (race : Race) → Leaves session_conn (lost race) (accept lib crypto handshake cfg race)
    unfolding accept
    accept-Leaves race = await-Leaves _ cfg _ race
