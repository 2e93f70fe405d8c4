-- ===== src/Transport/Stream.antt =====
-- What a connection gives to the code that reads from it and takes from the code that writes to it.
-- The kernel and the TLS and QUIC libraries choose how a byte stream is cut into pieces and when a
-- call fails, so a connection is the list of its answers, in order.
pub mod Laws
pub mod Writes
use proto_test.Base.{
  ℕ, zero, suc, ◌-◌, Bool, true, false, List, [], ◌∷◌, ◌++◌, length, take, drop, ltb, leb,
  if◌then◌else◌, Error, eof, unexpected_eof,
}

-- Bytes that have arrived together, or an error that `Read` returns.
pub data Chunk : Type 0 where
  bytes : List ℕ → Chunk
  fail : Error → Chunk

-- The end of a call on a connection: its value or its error, and the answers that are left. A call
-- that needs more answers than there are is `blocked`.
pub data Outcome (A : Type 0) : Type 0 where
  done : A → List Chunk → Outcome A
  failed : Error → List Chunk → Outcome A
  blocked : Outcome A

infixl 5 ◌>>=◌
abbrev pub ◌>>=◌ : {A B : Type 0} → Outcome A → (A → List Chunk → Outcome B) → Outcome B
done a s >>= f = f a s
failed e s >>= f = failed e s
blocked >>= f = blocked

-- `catch` rewrites the error of a call.
abbrev pub map_error : {A : Type 0} → (Error → Error) → Outcome A → Outcome A
map_error h (done a s) = done a s
map_error h (failed e s) = failed (h e) s
map_error h blocked = blocked

-- `Read` into a buffer of k bytes, for k > 0: at most k bytes of what has arrived; the rest stays.
unfoldable pub read : ℕ → List Chunk → Outcome (List ℕ)
read k [] = blocked
read k (fail e ∷ s) = failed e s
read k (bytes b ∷ s) = if leb (length b) k then done b s else done (take k b) (bytes (drop k b) ∷ s)

-- `ReadAtLeast` turns an end of the stream inside the wanted bytes into `ErrUnexpectedEOF`.
abbrev pub eof_inside : ℕ → Error → Error
eof_inside zero e = e
eof_inside (suc n) eof = unexpected_eof
eof_inside (suc n) e = e

-- The loop of `io.ReadFull`, with the bytes read so far.
unfoldable pub read_full_loop : List ℕ → ℕ → List Chunk → Outcome (List ℕ)
read_full_loop acc zero s = done acc s
read_full_loop acc (suc k) [] = blocked
read_full_loop acc (suc k) (fail e ∷ s) = failed (eof_inside (length acc) e) s
read_full_loop acc (suc k) (bytes b ∷ s) =
    let rest = read_full_loop (acc ++ b) (suc k - length b) s in
    if leb (length b) (suc k)
    then rest
    else done (acc ++ take (suc k) b) (bytes (drop (suc k) b) ∷ s)

-- `io.ReadFull` into a buffer of k bytes.
unfoldable pub read_full : ℕ → List Chunk → Outcome (List ℕ)
unfolding read_full_loop
read_full k s = read_full_loop [] k s

-- The bytes of a stream on which no read fails.
unfoldable pub contents : List Chunk → List ℕ
contents [] = []
contents (bytes b ∷ s) = b ++ contents s
contents (fail e ∷ s) = contents s

abbrev pub NoFailure : List Chunk → Type 0
NoFailure [] = Unit {0}
NoFailure (bytes b ∷ s) = NoFailure s
NoFailure (fail e ∷ s) = ⊥
