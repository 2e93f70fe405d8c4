-- ===== src/Base/Decimal.antt =====
-- `strconv.Itoa`, `FormatInt` and `FormatUint` in base ten, as bytes, and reading them back.
use Prim.Native.Nat.{ℕ, zero, suc, ◌+◌, ◌-◌, ◌*◌, ◌/◌, ◌%◌, ◌≤◌, ◌<◌}
use proto_test.Base.Tests.{◌==◌, if◌then◌else◌, Bool-cases}
use proto_test.Base.Int.{ℤ, pos, negsuc, neg}
use mathlib.Core.Path.{◌≡◌, refl, ◌∙◌, ap}
use mathlib.Core.Logic.{inl, inr}
use mathlib.Core.Bool.{true, false}
use mathlib.Core.List.{List, [], ◌∷◌}
use native.Mathlib.Omega.{arith}

-- The digits of n in front of `out`; the first argument bounds their number.
digits : ℕ → ℕ → List ℕ → List ℕ
digits zero n out = out
digits (suc fuel) n out = elim (n / 10 == 0) [
  | true ↦ (48 + n % 10) ∷ out
  | false ↦ digits fuel (n / 10) ((48 + n % 10) ∷ out)
]

unfoldable pub format_uint : ℕ → List ℕ
unfolding digits
format_uint n = digits (suc n) n []

-- The minus sign is the byte 45.
unfoldable pub format_int : ℤ → List ℕ
unfolding format_uint
format_int (pos n) = format_uint n
format_int (negsuc n) = 45 ∷ format_uint (suc n)

-- The number that the digits spell behind n.
abbrev pub value : ℕ → List ℕ → ℕ
value n [] = n
value n (c ∷ cs) = value (n * 10 + (c - 48)) cs

abbrev pub read_uint : List ℕ → ℕ
read_uint cs = value 0 cs

unfoldable pub read_int : List ℕ → ℤ
read_int [] = pos 0
read_int (c ∷ cs) = if c == 45 then neg (read_uint cs) else pos (read_uint (c ∷ cs))

digits_last :
    (fuel n : ℕ) (out : List ℕ)
    → (n / 10 == 0) ≡ true
    → digits (suc fuel) n out ≡ (48 + n % 10) ∷ out
unfolding digits
digits_last fuel n out h = rw (h, digits) refl

digits_more :
    (fuel n : ℕ) (out : List ℕ)
    → (n / 10 == 0) ≡ false
    → digits (suc fuel) n out ≡ digits fuel (n / 10) ((48 + n % 10) ∷ out)
unfolding digits
digits_more fuel n out h = rw (h, digits) refl

value-digits : (fuel n : ℕ) (out : List ℕ) → n < fuel → value 0 (digits fuel n out) ≡ value n out
value-digits zero n out h = absurd (omega arith)
value-digits (suc fuel) n out h = elim (Bool-cases (n / 10 == 0)) [
  | inl last ↦ rw (digits_last fuel n out last) (ap (λ m. value m out) (ground arith))
  | inr more ↦ rw (digits_more fuel n out more) (
      value-digits fuel (n / 10) ((48 + n % 10) ∷ out) (ground arith)
      ∙ ap (λ m. value m out) (omega arith))
]

-- Every number is read back from its digits.
pub read_uint-format_uint : (n : ℕ) → read_uint (format_uint n) ≡ n
unfolding format_uint
read_uint-format_uint n = value-digits (suc n) n [] (omega arith)

-- A list that begins with a digit.
abbrev StartsWithDigit : List ℕ → Type 0
StartsWithDigit [] = ⊥
StartsWithDigit (c ∷ cs) = 48 ≤ c

digits-StartsWithDigit :
    (fuel n : ℕ) (out : List ℕ) → StartsWithDigit out → StartsWithDigit (digits fuel n out)
unfolding digits
digits-StartsWithDigit zero n out h = h
digits-StartsWithDigit (suc fuel) n out h = elim (Bool-cases (n / 10 == 0)) [
  | inl last ↦ rw (digits_last fuel n out last) (omega arith)
  | inr more ↦
      rw (digits_more fuel n out more)
        (digits-StartsWithDigit fuel (n / 10) ((48 + n % 10) ∷ out) (omega arith))
]

format_uint-StartsWithDigit : (n : ℕ) → StartsWithDigit (format_uint n)
unfolding format_uint
format_uint-StartsWithDigit n = elim (Bool-cases (n / 10 == 0)) [
  | inl last ↦ rw (digits_last n n [] last) (omega arith)
  | inr more ↦
      rw (digits_more n n [] more)
        (digits-StartsWithDigit n (n / 10) ((48 + n % 10) ∷ []) (omega arith))
]

read_int-digit : (cs : List ℕ) → StartsWithDigit cs → read_int cs ≡ pos (read_uint cs)
unfolding read_int
read_int-digit [] h = absurd h
read_int-digit (c ∷ cs) h = ground arith

-- Every integer is read back from its digits.
pub read_int-format_int : (z : ℤ) → read_int (format_int z) ≡ z
unfolding format_int
read_int-format_int (pos n) =
    read_int-digit (format_uint n) (format_uint-StartsWithDigit n)
    ∙ ap pos (read_uint-format_uint n)
read_int-format_int (negsuc n) = unfold read_int in ap neg (read_uint-format_uint (suc n))
