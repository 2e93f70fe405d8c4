-- ===== src/Transport/Stream/Laws.antt =====
-- `io.ReadFull` on a stream does not depend on how the stream is cut into pieces.
use mathlib.Core.List.{append_assoc, append-nil}
use proto_test.Base.{
  ℕ, zero, suc, ◌-◌, ◌≤◌, ◌<◌, ◌≡◌, refl, inl, inr, List, [], ◌∷◌, ◌++◌, length, take, drop, leb,
  Bool-cases, arith, length-append, take-append_of_ge, drop-append_of_ge, take-append_of_le,
  drop-append_of_le,
}
use proto_test.Transport.Stream.{
  Chunk, bytes, fail, Outcome, done, blocked, read_full_loop, read_full, contents, NoFailure,
}

-- A call returned `value` and left a stream on which no read fails, with these contents.
pub record Reads (o : Outcome (List ℕ)) (value left : List ℕ) : Type 0 where
  pub stream : List Chunk
  pub result : o ≡ done value stream
  pub no_failure : NoFailure stream
  pub remains : contents stream ≡ left

read_full_loop-Reads :
    (acc : List ℕ) (k : ℕ) (s : List Chunk)
    → NoFailure s
    → k ≤ length (contents s)
    → Reads (read_full_loop acc k s) (acc ++ take k (contents s)) (drop k (contents s))
unfolding read_full_loop contents
read_full_loop-Reads acc zero s nf h = record {
  stream = s;
  result = rw append-nil;
  no_failure = nf;
  remains = refl;
}
read_full_loop-Reads acc (suc k) [] nf h = absurd (omega arith)
read_full_loop-Reads acc (suc k) (fail e ∷ s) nf h = absurd nf
read_full_loop-Reads acc (suc k) (bytes b ∷ s) nf h = elim (Bool-cases (leb (length b) (suc k))) [
  | inl short ↦ rw short (
      rw
        (
          take-append_of_ge (suc k) b (contents s) (ground arith),
          drop-append_of_ge (suc k) b (contents s) (ground arith),
          ← append_assoc acc b (take (suc k - length b) (contents s)),
        )
        (read_full_loop-Reads (acc ++ b) (suc k - length b) s nf
          (omega (arith, length-append b (contents s)))))
  | inr long ↦ rw long (
      rw
        (
          take-append_of_le (suc k) b (contents s) (ground arith),
          drop-append_of_le (suc k) b (contents s) (ground arith),
        )
        (record {
          stream = bytes (drop (suc k) b) ∷ s;
          result = refl;
          no_failure = nf;
          remains = refl;
        }))
]

-- On a stream with enough bytes `io.ReadFull` returns the first k of them and leaves the others,
-- however the stream is cut.
pub read_full-Reads :
    (k : ℕ) (s : List Chunk)
    → NoFailure s
    → k ≤ length (contents s)
    → Reads (read_full k s) (take k (contents s)) (drop k (contents s))
unfolding read_full
read_full-Reads k s nf h = read_full_loop-Reads [] k s nf h

read_full_loop-blocked :
    (acc : List ℕ) (k : ℕ) (s : List Chunk)
    → NoFailure s
    → length (contents s) < k
    → read_full_loop acc k s ≡ blocked
unfolding read_full_loop contents
read_full_loop-blocked acc zero s nf h = absurd (omega arith)
read_full_loop-blocked acc (suc k) [] nf h = refl
read_full_loop-blocked acc (suc k) (fail e ∷ s) nf h = absurd nf
read_full_loop-blocked acc (suc k) (bytes b ∷ s) nf h = elim (Bool-cases (leb (length b) (suc k))) [
  | inl short ↦ rw short (
      read_full_loop-blocked (acc ++ b) (suc k - length b) s nf
        (ground (arith, length-append b (contents s))))
  | inr long ↦ absurd (ground (arith, length-append b (contents s)))
]

-- On a stream with too few bytes `io.ReadFull` waits.
pub read_full-blocked :
    (k : ℕ) (s : List Chunk) → NoFailure s → length (contents s) < k → read_full k s ≡ blocked
unfolding read_full
read_full-blocked k s nf h = read_full_loop-blocked [] k s nf h
