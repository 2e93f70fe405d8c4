-- ===== src/Transport/Stream/Writes.antt =====
-- The answers of `Write`, and what a loop of writes has put on the connection.
use mathlib.Core.List.{append_assoc}
use proto_test.Base.{ℕ, ◌≤◌, ◌≡◌, ap, ◌∙◌, List, [], ◌∷◌, ◌++◌, take, drop, take-append-drop, Error}
use proto_test.Transport.Stream.{Chunk, bytes, contents, NoFailure}

-- The two results of a `Write`: the number of bytes taken, without and with an error.
pub data Write : Type 0 where
  wrote : ℕ → Write
  refused : ℕ → Error → Write

-- The end of a loop of writes, with the pieces that it put on the connection: all is sent (and some
-- answers are left), an error stopped the loop, or it waits for an answer.
pub data Sent : Type 0 where
  sent : List Chunk → List Write → Sent
  broke : Error → List Chunk → Sent
  waiting : List Chunk → Sent

-- One piece before those of the rest of the loop.
abbrev pub piece : List ℕ → Sent → Sent
piece b (sent p ws) = sent (bytes b ∷ p) ws
piece b (broke e p) = broke e (bytes b ∷ p)
piece b (waiting p) = waiting (bytes b ∷ p)

split :
    (n : ℕ) (p : List ℕ) (ps : List Chunk) (left : List ℕ)
    → contents ps ++ left ≡ drop n p
    → (take n p ++ contents ps) ++ left ≡ p
split n p ps left e =
    append_assoc (take n p) (contents ps) left ∙ ap (λ b. take n p ++ b) e ∙ take-append-drop n p

abbrev pub pieces : Sent → List Chunk
pieces (sent p ws) = p
pieces (broke e p) = p
pieces (waiting p) = p

-- What a loop over a payload leaves on the connection: the whole payload when it returns with
-- success, and some first bytes of it when it fails or waits.
abbrev pub Puts : List ℕ → Sent → Type 0
Puts p (sent ps ws) = NoFailure ps × (contents ps ≡ p)
Puts p (broke e ps) = NoFailure ps × ((left : List ℕ) × (contents ps ++ left ≡ p))
Puts p (waiting ps) = NoFailure ps × ((left : List ℕ) × (contents ps ++ left ≡ p))

pub piece-Puts : (n : ℕ) (p : List ℕ) (r : Sent) → Puts (drop n p) r → Puts p (piece (take n p) r)
unfolding contents
piece-Puts n p (sent ps ws) (nf, e) = (nf, ap (λ b. take n p ++ b) e ∙ take-append-drop n p)
piece-Puts n p (broke x ps) (nf, (left, e)) = (nf, (left, split n p ps left e))
piece-Puts n p (waiting ps) (nf, (left, e)) = (nf, (left, split n p ps left e))

-- Each answer takes at least one byte, and none is an error.
abbrev pub MakesProgress : List Write → Type 0
MakesProgress [] = Unit {0}
MakesProgress (wrote n ∷ ws) = (1 ≤ n) × MakesProgress ws
MakesProgress (refused n e ∷ ws) = ⊥
