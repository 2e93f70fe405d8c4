-- ===== src/Transport/Queue.antt =====
-- `transport.Channel` of pkg/transport/transport.go: what a channel promises about the messages
-- that are sent on it, as an interface, and as a queue of messages.
pub mod Framed
pub mod Refines
use proto_test.Base.{ℕ, ◌≡◌, Bool, true, false, List, [], ◌∷◌, ◌++◌, Error}
use proto_test.Transport.Stream.{Chunk, Outcome, done, failed, blocked, contents, NoFailure}
use proto_test.Transport.Stream.Laws.{Reads}
use proto_test.Transport.Stream.Writes.{Write, Sent, sent, broke, waiting, Puts}

-- `Send` and `Recv` over a connection, with the messages that they carry and the bytes that a
-- message has on the connection. `Send` puts these bytes there, or some first bytes of them if it
-- fails; `Recv` takes the first message, and waits where nothing has arrived.
pub record Channel : Type 1 where
  pub Carries : List ℕ → Type 0
  pub wire : List ℕ → List ℕ
  pub send : List ℕ → List Write → Sent
  pub recv : List Chunk → Outcome (List ℕ)
  pub send-Puts : (p : List ℕ) (ws : List Write) → Carries p → Puts (wire p) (send p ws)
  pub recv-Reads :
      (p rest : List ℕ) (s : List Chunk)
      → Carries p
      → NoFailure s
      → contents s ≡ wire p ++ rest
      → Reads (recv s) p rest
  pub recv-blocked : (s : List Chunk) → NoFailure s → contents s ≡ [] → recv s ≡ blocked

-- A call on a channel; `put` has the answers of the connection to its writes.
pub data Op : Type 0 where
  put : List ℕ → List Write → Op
  get : Op

-- What a client sees of a call.
pub data Seen : Type 0 where
  taken refused nothing : Seen
  got : List ℕ → Seen
  wrong : Error → Seen

-- What a client sees of a sequence of calls over a connection that carries these pieces. It stops
-- at a call of `Send` that does not return with success.
module _ (ch : Channel) where
  abbrev pub after_put : Sent → (List Chunk → List Seen) → List Seen
  after_put (sent ps ws) more = taken ∷ more ps
  after_put (broke e ps) more = refused ∷ []
  after_put (waiting ps) more = refused ∷ []

  abbrev pub after_get : Outcome (List ℕ) → List Chunk → (List Chunk → List Seen) → List Seen
  after_get (done m rest) s more = got m ∷ more rest
  after_get (failed e rest) s more = wrong e ∷ more rest
  after_get blocked s more = nothing ∷ more s

  unfoldable pub channel_run : List Op → List Chunk → List Seen
  channel_run [] s = []
  channel_run (put p ws ∷ ops) s = after_put (ch.send p ws) (λ ps. channel_run ops (s ++ ps))
  channel_run (get ∷ ops) s = after_get (ch.recv s) s (λ rest. channel_run ops rest)

-- The same calls on a queue of messages; of a `put` only its success is kept.
pub data QueueOp : Type 0 where
  enqueue : List ℕ → Bool → QueueOp
  dequeue : QueueOp

unfoldable pub queue_run : List QueueOp → List (List ℕ) → List Seen
queue_run [] q = []
queue_run (enqueue p true ∷ ops) q = taken ∷ queue_run ops (q ++ (p ∷ []))
queue_run (enqueue p false ∷ ops) q = refused ∷ []
queue_run (dequeue ∷ ops) [] = nothing ∷ queue_run ops []
queue_run (dequeue ∷ ops) (m ∷ q) = got m ∷ queue_run ops q
