-- ===== src/Base/Sort.antt =====
-- `sort.Slice` on int64 values with the order `<`. Equal values cannot be told apart, so every
-- correct sort returns the same slice; this one inserts.
use proto_test.Base.Tests.{if◌then◌else◌, Bool-cases}
use proto_test.Base.Lists.{length, All, get_or}
use proto_test.Base.Int.{ℤ, pos, ◌≤ℤ◌, leb_ℤ, leb_ℤ→≤ℤ, not-leb_ℤ→≤ℤ, ≤ℤ_antisym}
use Prim.Native.Nat.{ℕ, zero, suc, ◌+◌, ◌≤◌, ◌<◌}
use mathlib.Core.Path.{◌≡◌, refl, ap, ◌∙◌}
use mathlib.Core.Logic.{inl, inr}
use mathlib.Core.Bool.{Bool}
use mathlib.Core.List.{List, [], ◌∷◌, ◌++◌}
use native.Mathlib.Omega.{arith}

unfoldable pub insert : ℤ → List ℤ → List ℤ
insert a [] = a ∷ []
insert a (x ∷ xs) = if leb_ℤ a x then a ∷ x ∷ xs else x ∷ insert a xs

unfoldable pub sort : List ℤ → List ℤ
unfolding insert
sort [] = []
sort (x ∷ xs) = insert x (sort xs)

pub length-insert : (a : ℤ) (xs : List ℤ) → length (insert a xs) ≡ suc (length xs)
unfolding insert
length-insert a [] = refl
length-insert a (x ∷ xs) = ground (arith, length-insert a xs)

pub length-sort : (xs : List ℤ) → length (sort xs) ≡ length xs
unfolding sort
length-sort [] = refl
length-sort (x ∷ xs) = length-insert x (sort xs) ∙ ap suc (length-sort xs)

-- The order of two insertions does not matter.
pub insert_comm : (a b : ℤ) (xs : List ℤ) → insert a (insert b xs) ≡ insert b (insert a xs)
unfolding insert
insert_comm a b [] = ground (arith, ≤ℤ_antisym a b)
insert_comm a b (x ∷ xs) = ground (arith, ≤ℤ_antisym a b, insert_comm a b xs)

pub sort-append_one : (xs : List ℤ) (a : ℤ) → sort (xs ++ (a ∷ [])) ≡ insert a (sort xs)
unfolding sort
sort-append_one [] a = refl
sort-append_one (x ∷ xs) a = ap (insert x) (sort-append_one xs a) ∙ insert_comm x a (sort xs)

abbrev pub IsSorted : List ℤ → Type 0
IsSorted [] = Unit {0}
IsSorted (x ∷ xs) = All (λ y. x ≤ℤ y) xs × IsSorted xs

≤ℤ_trans : (a b c : ℤ) → a ≤ℤ b → b ≤ℤ c → a ≤ℤ c
≤ℤ_trans a b c h k = omega arith

All-insert :
    (b a : ℤ) (xs : List ℤ) → b ≤ℤ a → All (λ y. b ≤ℤ y) xs → All (λ y. b ≤ℤ y) (insert a xs)
unfolding insert
All-insert b a [] h all = (h, tt)
All-insert b a (x ∷ xs) h all = ground (arith, All-insert b a xs h all.1)

All-le_trans : (a x : ℤ) (xs : List ℤ) → a ≤ℤ x → All (λ y. x ≤ℤ y) xs → All (λ y. a ≤ℤ y) xs
All-le_trans a x [] h all = tt
All-le_trans a x (y ∷ ys) h all = (≤ℤ_trans a x y h all.0, All-le_trans a x ys h all.1)

insert-IsSorted : (a : ℤ) (xs : List ℤ) → IsSorted xs → IsSorted (insert a xs)
unfolding insert
insert-IsSorted a [] s = (tt, tt)
insert-IsSorted a (x ∷ xs) s = elim (Bool-cases (leb_ℤ a x)) [
  | inl h ↦ rw h ((leb_ℤ→≤ℤ a x h, All-le_trans a x xs (leb_ℤ→≤ℤ a x h) s.0), s)
  | inr h ↦ rw h (All-insert x a xs (not-leb_ℤ→≤ℤ a x h) s.0, insert-IsSorted a xs s.1)
]

pub sort-IsSorted : (xs : List ℤ) → IsSorted (sort xs)
unfolding sort
sort-IsSorted [] = tt
sort-IsSorted (x ∷ xs) = insert-IsSorted x (sort xs) (sort-IsSorted xs)

All-get_or :
    (v : ℤ) (xs : List ℤ) (i : ℕ) → All (λ y. v ≤ℤ y) xs → i < length xs → v ≤ℤ get_or xs i (pos 0)
All-get_or v [] i all h = absurd (omega arith)
All-get_or v (x ∷ xs) zero all h = all.0
All-get_or v (x ∷ xs) (suc i) all h = All-get_or v xs i all.1 (omega arith)

pub get_or-mono :
    (xs : List ℤ) (i j : ℕ)
    → IsSorted xs
    → i ≤ j
    → j < length xs
    → get_or xs i (pos 0) ≤ℤ get_or xs j (pos 0)
get_or-mono [] i j s h lt = absurd (omega arith)
get_or-mono (x ∷ xs) zero zero s h lt = omega arith
get_or-mono (x ∷ xs) zero (suc j) s h lt = All-get_or x xs j s.0 (omega arith)
get_or-mono (x ∷ xs) (suc i) zero s h lt = absurd (omega arith)
get_or-mono (x ∷ xs) (suc i) (suc j) s h lt = get_or-mono xs i j s.1 (omega arith) (omega arith)

-- How many of the values pass a test.
pub count_if : (ℤ → Bool) → List ℤ → ℕ
count_if p [] = 0
count_if p (x ∷ xs) = (if p x then 1 else 0) + count_if p xs

count_if-insert :
    (p : ℤ → Bool) (a : ℤ) (xs : List ℤ)
    → count_if p (insert a xs) ≡ (if p a then 1 else 0) + count_if p xs
unfolding insert count_if
count_if-insert p a [] = refl
count_if-insert p a (x ∷ xs) = ground (arith, count_if-insert p a xs)

pub count_if-sort : (p : ℤ → Bool) (xs : List ℤ) → count_if p (sort xs) ≡ count_if p xs
unfolding sort count_if
count_if-sort p [] = refl
count_if-sort p (x ∷ xs) = omega (arith, count_if-insert p x (sort xs), count_if-sort p xs)

count_if_all_above :
    (v : ℤ) (xs : List ℤ) → All (λ y. v ≤ℤ y) xs → count_if (λ y. leb_ℤ v y) xs ≡ length xs
unfolding count_if
count_if_all_above v [] all = refl
count_if_all_above v (x ∷ xs) all = ground (arith, count_if_all_above v xs all.1)

-- In a sorted list the value at index i has i values before it that are not above it, and all
-- that follow are not below it.
pub rank_below :
    (xs : List ℤ) (i : ℕ)
    → IsSorted xs
    → i < length xs
    → i < count_if (λ y. leb_ℤ y (get_or xs i (pos 0))) xs
unfolding count_if
rank_below [] i s h = absurd (omega arith)
rank_below (x ∷ xs) zero s h = ground arith
rank_below (x ∷ xs) (suc i) s h =
    ground (arith, rank_below xs i s.1 (omega arith), All-get_or x xs i s.0 (omega arith))

pub rank_above :
    (xs : List ℤ) (i : ℕ)
    → IsSorted xs
    → i < length xs
    → length xs ≤ i + count_if (λ y. leb_ℤ (get_or xs i (pos 0)) y) xs
unfolding count_if
rank_above [] i s h = absurd (omega arith)
rank_above (x ∷ xs) zero s h = ground (arith, count_if_all_above x xs s.0)
rank_above (x ∷ xs) (suc i) s h = ground (arith, rank_above xs i s.1 (omega arith))
