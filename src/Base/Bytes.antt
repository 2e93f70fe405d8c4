-- ===== src/Base/Bytes.antt =====
-- `encoding/binary.BigEndian`: unsigned numbers as bytes, highest first.
use proto_test.Base.Lists.{length, All}
use Prim.Native.Nat.{ℕ, zero, suc, ◌+◌, ◌*◌, ◌/◌, ◌%◌, ◌^◌, ◌≤◌, ◌<◌}
use mathlib.Core.Path.{◌≡◌, refl, sym, ap, ap₂, ◌∙◌}
use mathlib.Core.List.{List, [], ◌∷◌}
use native.Mathlib.Nat.{
  pow-suc, div-add-mod, mul-add-mod_self_left, mod-eq_of_lt, mod-lt, mul-le-mul_right,
  mul-add-div_right, div-eq_of_lt,
}
use native.Mathlib.Omega.{arith}

abbrev pub IsByte : ℕ → Type 0
IsByte b = b < 256

-- `PutUint16`, `PutUint32` and `PutUint64` at k = 2, 4 and 8: byte i is `byte(v >> (8 * (k-1-i)))`.
unfoldable pub put_be : ℕ → ℕ → List ℕ
put_be zero v = []
put_be (suc k) v = (v / 256 ^ k % 256) ∷ put_be k v

-- `Uint16`, `Uint32` and `Uint64`, on a slice of 2, 4 or 8 bytes.
unfoldable pub get_be : List ℕ → ℕ
get_be [] = 0
get_be (b ∷ bs) = b * 256 ^ length bs + get_be bs

pub length-put_be : (k v : ℕ) → length (put_be k v) ≡ k
unfolding put_be
length-put_be zero v = refl
length-put_be (suc k) v = omega (arith, length-put_be k v)

pub put_be-IsByte : (k v : ℕ) → All IsByte (put_be k v)
unfolding put_be
put_be-IsByte zero v = tt
put_be-IsByte (suc k) v = (omega arith, put_be-IsByte k v)

pow-pos : (k : ℕ) → 0 < 256 ^ k
pow-pos zero = omega arith
pow-pos (suc k) = omega (arith, pow-pos k, pow-suc 256 k)

pub get_be-lt : (bs : List ℕ) → All IsByte bs → get_be bs < 256 ^ length bs
unfolding get_be
get_be-lt [] h = omega arith
get_be-lt (b ∷ bs) h =
    let P = 256 ^ length bs in rw pow-suc (grind (arith, get_be-lt bs h.1, mul_step b P h.0))
  where
    mul_step : (b P : ℕ) → b < 256 → b * P + P ≤ P * 256
    mul_step b P h = grind arith

last_digit : (n : ℕ) → n % 256 ≤ 255
last_digit n = omega arith

-- The lowest digit above the first `k`, put back in its place.
digit_mod : (P v : ℕ) → 0 < P → v / P % 256 * P + v % P ≡ v % (P * 256)
digit_mod P v h = sym (
    ap (λ (t : ℕ). t % (P * 256)) split
    ∙ mul-add-mod_self_left (P * 256) (v / P / 256) (v / P % 256 * P + v % P)
    ∙ mod-eq_of_lt small)
  where
    split : v ≡ P * 256 * (v / P / 256) + (v / P % 256 * P + v % P)
    split = omega (arith, div-add-mod v P, ap (λ (t : ℕ). P * t) (div-add-mod (v / P) 256))

    small : v / P % 256 * P + v % P < P * 256
    small = grind (arith, mod-lt v h, mul-le-mul_right P (last_digit (v / P)))

pub get_be-put_be_mod : (k v : ℕ) → get_be (put_be k v) ≡ v % 256 ^ k
unfolding get_be put_be
get_be-put_be_mod zero v = omega arith
get_be-put_be_mod (suc k) v =
    rw (length-put_be k v, get_be-put_be_mod k v, pow-suc) (digit_mod (256 ^ k) v (pow-pos k))

put_be-add : (k a v : ℕ) → put_be k (a * 256 ^ k + v) ≡ put_be k v
unfolding put_be
put_be-add zero a v = refl
put_be-add (suc k) a v = rw regroup (
    ap₂ ◌∷◌ (rw (mul-add-div_right (pow-pos k) (a * 256) v) (omega arith))
      (put_be-add k (a * 256) v))
  where
    regroup : a * 256 ^ suc k ≡ a * 256 * 256 ^ k
    regroup = rw pow-suc (grind arith)

pub put_be-get_be : (bs : List ℕ) → All IsByte bs → put_be (length bs) (get_be bs) ≡ bs
unfolding put_be get_be
put_be-get_be [] h = refl
put_be-get_be (b ∷ bs) h =
    ap₂ ◌∷◌
      (rw (mul-add-div_right (pow-pos (length bs)) b (get_be bs), div-eq_of_lt (get_be-lt bs h.1))
        (omega (arith, h.0)))
      (put_be-add (length bs) b (get_be bs) ∙ put_be-get_be bs h.1)
