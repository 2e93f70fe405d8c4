-- ===== src/Tests.antt =====
-- Concrete values, on which the theorems of the library are applied.
pub mod Wire
pub mod Metrics
pub mod Transport
pub mod Kernel
pub mod Tls
pub mod App
pub mod Load
pub mod Cli
pub mod Gnb
pub mod Queue
pub mod Csv
pub mod Nas
pub mod Backend
use native.Mathlib.Nat.{mul-le-mul_left}
use Prim.Native.String.{String}
use proto_test.Base.{
  ℕ, ◌+◌, ◌*◌, ◌/◌, ◌≤◌, ◌≡◌, refl, List, [], ◌∷◌, Bool, Option, none, some, ℤ, pos, pos_part, ◌≤ℤ◌,
  Floats, Error, eof, Result, ok, err, IsByte, All, arith,
}
use proto_test.Wire.{Frame, IsFrame, msg_req, encode_or_nil}

abbrev hundredth_mono : {a b : ℕ} → a ≤ b → a / 100 ≤ b / 100
hundredth_mono h = omega arith

-- Numbers with two decimal digits in place of float64: `n` stands for n / 100.
abbrev pub hundredths : Floats
hundredths = record {
  Float = ℕ;
  of_ℕ = λ n. n * 100;
  mul = λ a b. a * b / 100;
  div = λ a b. a * 100 / b;
  trunc = λ a. pos (a / 100);
  seconds = λ d. pos_part d / 10_000_000;
  half = 50;
  ninety_five = 95;
  ninety_nine = 99;
  Le = λ a b. a ≤ b;
  half-le = omega arith;
  ninety_five-le = omega arith;
  mul-Le = λ n a b h. hundredth_mono (mul-le-mul_left (n * 100) h);
  trunc-Le = λ a b h. omega arith;
}

abbrev pub request : Frame
request = record {
  msg_type = msg_req;
  seq_id = 7;
  send_ts_ns = pos 1000;
  channel_id = 3;
  payload = 10 ∷ (20 ∷ (30 ∷ []));
}

abbrev pub payload-bytes : All IsByte (10 ∷ (20 ∷ (30 ∷ [])))
payload-bytes = omega arith

abbrev pub request-IsFrame : IsFrame request
request-IsFrame = record {
  type_fits = omega arith;
  seq_fits = omega arith;
  ts_fits = omega arith;
  channel_fits = omega arith;
  payload_bytes = payload-bytes;
}

-- The bytes of `request`.
abbrev pub request_bytes : List ℕ
request_bytes =
    77 ∷ 53 ∷ 71 ∷ 71 ∷ 1 ∷ 1 ∷ 0 ∷ 0 ∷ 0 ∷ 0 ∷ 0 ∷ 0 ∷ 0 ∷ 7 ∷ 0 ∷ 0 ∷ 0 ∷ 0 ∷ 0 ∷ 0 ∷ 3 ∷ 232 ∷ 0
    ∷ 3 ∷ 0 ∷ 3 ∷ 10 ∷ 20 ∷ 30 ∷ []
