-- ===== src/Load/Open/Leaves.antt =====
-- `open` gives back the connection of a session on which it gets no channel.
use proto_test.Base.{ℕ, ◌≡◌, ◌∙◌, List, [], ◌∷◌, map, Option, some, Result, ok, err, arith}
use proto_test.Transport.{Config}
use proto_test.Transport.Kernel.Fds.{closed, M, ◌>>=◌, done, failed, waits, replay}
use proto_test.Transport.Kernel.Fds.Owned.{replay-append}
use proto_test.Transport.Kernel.Session.{DialAnswers, ListenAnswers, AcceptAnswer}
use proto_test.Transport.Kernel.Sockets.{CtxRound}
use proto_test.Transport.Sctp.Session.{Race}
use proto_test.Transport.Sctp.Session.Accounts.{Leaves}
use proto_test.Transport.Backend.{
  World, Session, Listener, listen, dial, accept, open_channel, listener_close,
}
use proto_test.Transport.Backend.Accounts.{
  connection, lost_by_dial, lost_by_accept, listen-Leaves, dial-Leaves, accept-Leaves,
}
use proto_test.Load.Open.{or_close_session, open_session}
use proto_test.Load.Open.Fresh.{Yields, IsFresh, dial-Yields}

abbrev pub held : Session × ℕ → ℕ
held r = connection r.0

pub close_one :
    (s : Session) (others : List ℕ)
    → replay (connection s ∷ others) (map closed (connection s ∷ [])) ≡ some others
close_one s others = ground arith

-- A channel or the close of the session, after a call that leaves these connections open.
channel-Leaves :
    (others : List ℕ) (m : M Session) (channel : Session → Result ℕ)
    → Leaves connection others m
    → Yields IsFresh m.0
    → Leaves held others (m >>= λ s. or_close_session s (channel s))
channel-Leaves others (failed e, l) channel h fresh = h
channel-Leaves others (waits, l) channel h fresh = h
channel-Leaves others (done s, l) channel h fresh = by_channel (channel s)
  where
    by_channel : (r : Result ℕ) → Leaves held others ((done s, l) >>= λ s'. or_close_session s' r)
    by_channel (ok id) = unfold or_close_session in replay-append [] l [] h
    by_channel (err e) =
        unfold or_close_session in
        rw fresh (replay-append [] l (closed (connection s) ∷ []) h ∙ close_one s others)

module _ (w : World) (cfg : Config) where
  pub open-Leaves :
      (k : DialAnswers) (race : Option w.sctp.Addr → w.sctp.Addr → Race) (stream : Result ℕ)
      (id : ℕ)
      → Leaves held (lost_by_dial w cfg race) (open_session w cfg k race stream id)
  unfolding open_session
  open-Leaves k race stream id =
      channel-Leaves (lost_by_dial w cfg race) (dial w cfg k race) (λ s. open_channel s stream id)
        (dial-Leaves w cfg k race) (dial-Yields w cfg k race)

  -- Whichever transport the configuration names, on any answers of the system and of the libraries,
  -- what `Listen`, `Dial`, `Accept` and `open` of the load generator leave open is what their
  -- listener or session holds, and nothing if they fail (at most one descriptor while they wait):
  -- each connection that a failed call opened is closed again, once, also where there is a session
  -- but no channel. The only exception are connections of the SCTP library that come after the
  -- context has ended the call: those stay open, with no one to close them.
  pub connections-Leaves :
      (k : ListenAnswers) (d : DialAnswers) (race : Option w.sctp.Addr → w.sctp.Addr → Race)
      (stream : Result ℕ) (id : ℕ) (l : Listener) (accept_race : Race) (answers : List AcceptAnswer)
      (polls : List CtxRound) (accepted : Result ℕ)
      → Leaves listener_close [] (listen w cfg k)
        × Leaves connection (lost_by_dial w cfg race) (dial w cfg d race)
        × Leaves connection
            (lost_by_accept w l accept_race)
            (accept w l accept_race answers polls accepted)
        × Leaves held (lost_by_dial w cfg race) (open_session w cfg d race stream id)
  connections-Leaves k d race stream id l accept_race answers polls accepted = (
    listen-Leaves w cfg k,
    dial-Leaves w cfg d race,
    accept-Leaves w l accept_race answers polls accepted,
    open-Leaves d race stream id,
  )
