-- ===== src/Nas/Ends.antt =====
-- The bound on the steps of trimming is enough: it ends where no space is left.
use proto_test.Base.{
  ℕ, zero, suc, ◌+◌, ◌≤◌, ◌<◌, ◌≡◌, sym, ap, ◌∙◌, inl, inr, Bool-cases, ◌==◌, List, [], ◌∷◌, length,
  All, Option-cases, none, some, arith,
}
use proto_test.Nas.{strip_prefix, strip_any, trim_with, spaces, spaces_reversed}
use proto_test.Nas.Steps.{prefix_same, prefix_other, any_first, any_later, trim_stop, trim_more}

pub some_injective : {A : Type 0} (a b : A) → some a ≡ some b → a ≡ b
some_injective a b h = cc h

strip_prefix-length : (p s r : List ℕ) → strip_prefix p s ≡ some r → length p + length r ≡ length s
strip_prefix-length [] s r h =
    unfold strip_prefix in let same = ap length (some_injective s r h) in omega (arith, same)
strip_prefix-length (x ∷ p) [] r h = unfold strip_prefix in absurd (cc h)
strip_prefix-length (x ∷ p) (c ∷ s) r h = elim (Bool-cases (x == c)) [
  | inl e ↦
      let rest = strip_prefix-length p s r (sym (prefix_same x p c s e) ∙ h) in omega (arith, rest)
  | inr e ↦ absurd (let eq = sym (prefix_other x p c s e) ∙ h in cc eq)
]

-- Prefixes that take something away.
abbrev pub IsLong : List ℕ → Type 0
IsLong p = 1 ≤ length p

pub strip_any-length :
    (ps : List (List ℕ)) (s r : List ℕ)
    → All IsLong ps
    → strip_any ps s ≡ some r
    → length r < length s
strip_any-length [] s r long h = unfold strip_any in absurd (cc h)
strip_any-length (p ∷ ps) s r (one, long) h = elim (Option-cases (strip_prefix p s)) [
  | inl e ↦ strip_any-length ps s r long (sym (any_later p ps s e) ∙ h)
  | inr (t, e) ↦
      let l = strip_prefix-length p s r (e ∙ (sym (any_first p ps s t e) ∙ h)) in
      omega (arith, l, one)
]

trim_with-none :
    (n : ℕ) (ps : List (List ℕ)) (s : List ℕ)
    → All IsLong ps
    → length s ≤ n
    → strip_any ps (trim_with n ps s) ≡ none
trim_with-none zero ps s long h = elim (Option-cases (strip_any ps s)) [
  | inl e ↦ unfold trim_with in e
  | inr (t, e) ↦ absurd (let l = strip_any-length ps s t long e in omega (arith, l, h))
]
trim_with-none (suc n) ps s long h = elim (Option-cases (strip_any ps s)) [
  | inl e ↦ rw (trim_stop n ps s e) e
  | inr (t, e) ↦
      let l = strip_any-length ps s t long e in
      rw (trim_more n ps s t e) (trim_with-none n ps t long (omega (arith, l, h)))
]

-- As many steps as the text has bytes leave no space in front of it, nor, of its reverse, behind it.
trimmed_enough :
    (s : List ℕ)
    → (strip_any spaces (trim_with (length s) spaces s) ≡ none)
      × (strip_any spaces_reversed (trim_with (length s) spaces_reversed s) ≡ none)
trimmed_enough s = (
  trim_with-none (length s) spaces s (omega arith) (omega arith),
  trim_with-none (length s) spaces_reversed s (omega arith) (omega arith),
)
