-- ===== src/Base/Float64.antt =====
-- float64 as an interface: the operations that the metrics use, with the facts of IEEE 754
-- arithmetic that the proofs rest on. Rounding is monotone, so both products of a float with two
-- ordered floats and truncations of ordered floats are ordered.
use proto_test.Base.Int.{ℤ, ◌≤ℤ◌}
use Prim.Native.Nat.{ℕ}

pub record Floats : Type 1 where
  pub Float : Type 0
  pub of_ℕ : ℕ → Float
  pub mul : Float → Float → Float
  pub div : Float → Float → Float
  -- `int(f)`
  pub trunc : Float → ℤ
  -- `time.Duration.Seconds`
  pub seconds : ℤ → Float
  -- The constants 0.50, 0.95 and 0.99.
  pub half : Float
  pub ninety_five : Float
  pub ninety_nine : Float
  pub Le : Float → Float → Type 0
  pub half-le : Le half ninety_five
  pub ninety_five-le : Le ninety_five ninety_nine
  pub mul-Le : (n : ℕ) (a b : Float) → Le a b → Le (mul (of_ℕ n) a) (mul (of_ℕ n) b)
  pub trunc-Le : (a b : Float) → Le a b → trunc a ≤ℤ trunc b
