-- ===== src/Nas/Peel.antt =====
-- What trimming takes away is white space, and white space around digits goes.
use mathlib.Core.List.{append-nil, append_assoc}
use proto_test.Base.{
  ℕ, zero, suc, ◌≤◌, ◌<◌, ◌≡◌, refl, sym, ap, subst, ◌∙◌, ◌⊎◌, inl, inr, Bool-cases, ◌==◌, ==→eq,
  arith, List, [], ◌∷◌, ◌++◌, length, some, Option-cases, All,
}
use proto_test.Nas.{strip_prefix, strip_any, trim_with, compact}
use proto_test.Nas.Steps.{prefix_same, prefix_other, any_first, any_later, trim_stop, trim_more}
use proto_test.Nas.Trim.{IsPlain, IsSpace, compact_gap, high≠plain}
use proto_test.Nas.Ends.{strip_any-length, IsLong, some_injective}
use proto_test.Nas.Space.{flatten}

strip_prefix-append : (p s r : List ℕ) → strip_prefix p s ≡ some r → s ≡ p ++ r
strip_prefix-append [] s r h = unfold strip_prefix in some_injective s r h
strip_prefix-append (x ∷ p) [] r h = unfold strip_prefix in absurd (cc h)
strip_prefix-append (x ∷ p) (c ∷ s) r h = elim (Bool-cases (x == c)) [
  | inl e ↦
      let rest = strip_prefix-append p s r (sym (prefix_same x p c s e) ∙ h) in
      let same = ==→eq x c e in rw (same, rest) refl
  | inr e ↦ absurd (let eq = sym (prefix_other x p c s e) ∙ h in cc eq)
]

-- A text that begins with a plain character has no encoding of white space in front but a gap.
prefix_of_plain :
    (p : List ℕ) (c : ℕ) (s r : List ℕ)
    → IsSpace p
    → IsPlain c
    → strip_prefix p (c ∷ s) ≡ some r
    → (s ≡ r) × (c ≤ 32)
prefix_of_plain [] c s r sp pl h = absurd sp
prefix_of_plain (x ∷ []) c s r sp pl h = elim (Bool-cases (x == c)) [
  | inl e ↦
      let same = ==→eq x c e in
      let rest = sym (prefix_same x [] c s e) ∙ h in
      (unfold strip_prefix in some_injective s r rest, omega (arith, sp, same))
  | inr e ↦ absurd (let eq = sym (prefix_other x [] c s e) ∙ h in cc eq)
]
prefix_of_plain (x ∷ (y ∷ p)) c s r sp pl h = elim (Bool-cases (x == c)) [
  | inl e ↦ absurd (high≠plain x c sp pl e)
  | inr e ↦ absurd (let eq = sym (prefix_other x (y ∷ p) c s e) ∙ h in cc eq)
]

any_of_plain :
    (ps : List (List ℕ)) (c : ℕ) (s r : List ℕ)
    → All IsSpace ps
    → IsPlain c
    → strip_any ps (c ∷ s) ≡ some r
    → (s ≡ r) × (c ≤ 32)
any_of_plain [] c s r sp pl h = unfold strip_any in absurd (cc h)
any_of_plain (p ∷ ps) c s r (sp, sps) pl h = elim (Option-cases (strip_prefix p (c ∷ s))) [
  | inl e ↦ any_of_plain ps c s r sps pl (sym (any_later p ps (c ∷ s) e) ∙ h)
  | inr (t, e) ↦ prefix_of_plain p c s r sp pl (e ∙ (sym (any_first p ps (c ∷ s) t e) ∙ h))
]

module _ (Q : List ℕ → Type 0) where
  strip_any-append :
      (ps : List (List ℕ)) (s r : List ℕ)
      → All Q ps
      → strip_any ps s ≡ some r
      → (p : List ℕ) × Q p × (s ≡ p ++ r)
  strip_any-append [] s r q h = unfold strip_any in absurd (cc h)
  strip_any-append (p ∷ ps) s r (q, qs) h = elim (Option-cases (strip_prefix p s)) [
    | inl e ↦ strip_any-append ps s r qs (sym (any_later p ps s e) ∙ h)
    | inr (t, e) ↦ (p, q, strip_prefix-append p s r (e ∙ (sym (any_first p ps s t e) ∙ h)))
  ]

  -- Trimming takes prefixes away, and nothing else.
  pub trim_with-append :
      (n : ℕ) (tbl : List (List ℕ)) (s : List ℕ)
      → All Q tbl
      → (ps : List (List ℕ)) × All Q ps × (s ≡ flatten ps ++ trim_with n tbl s)
  trim_with-append zero tbl s q = unfold trim_with in ([], tt, refl)
  trim_with-append (suc n) tbl s q = elim (Option-cases (strip_any tbl s)) [
    | inl e ↦ ([], tt, sym (trim_stop n tbl s e))
    | inr (t, e) ↦
        let (p, first, same) = strip_any-append tbl s t q e in
        let (ps, rest, same_rest) = trim_with-append n tbl t q in
        (
          p ∷ ps,
          (first, rest),
          same
              ∙ (ap (λ z. p ++ z) same_rest
                  ∙ (sym (append_assoc p (flatten ps) (trim_with n tbl t))
                      ∙ ap (λ z. (p ++ flatten ps) ++ z) (sym (trim_more n tbl s t e)))),
        )
  ]

  -- A table of prefixes that takes off what has the property, one at a time.
  module _ (tbl : List (List ℕ)) (long : All IsLong tbl) (sp : All IsSpace tbl)
      (strips : (p r : List ℕ) → Q p → strip_any tbl (p ++ r) ≡ some r) where
    first_step :
        (p : List ℕ) (ps : List (List ℕ)) (z : List ℕ)
        → Q p
        → strip_any tbl ((p ++ flatten ps) ++ z) ≡ some (flatten ps ++ z)
    first_step p ps z q =
        subst (λ t. strip_any tbl t ≡ some (flatten ps ++ z)) (sym (append_assoc p (flatten ps) z))
          (strips p (flatten ps ++ z) q)

    first_gone :
        (p : List ℕ) (ps : List (List ℕ)) (z : List ℕ)
        → Q p
        → length (flatten ps ++ z) < length ((p ++ flatten ps) ++ z)
    first_gone p ps z q = strip_any-length tbl _ _ long (first_step p ps z q)

    trim_front :
        (n : ℕ) (ps : List (List ℕ)) (z : List ℕ)
        → All Q ps
        → length (flatten ps ++ z) ≤ n
        → (m : ℕ) × (length z ≤ m) × (trim_with n tbl (flatten ps ++ z) ≡ trim_with m tbl z)
    trim_front n [] z q h = (n, h, refl)
    trim_front zero (p ∷ ps) z (q, qs) h =
        absurd (let less = first_gone p ps z q in omega (arith, h, less))
    trim_front (suc n) (p ∷ ps) z (q, qs) h =
        let less = first_gone p ps z q in
        let (m, room, same) = trim_front n ps z qs (omega (arith, h, less)) in
        (m, room, trim_more n tbl _ _ (first_step p ps z q) ∙ same)

    trim_nil : (n : ℕ) → trim_with n tbl [] ≡ []
    trim_nil zero = unfold trim_with in refl
    trim_nil (suc n) = elim (Option-cases (strip_any tbl [])) [
      | inl e ↦ trim_stop n tbl [] e
      | inr (t, e) ↦ absurd (let l = strip_any-length tbl [] t long e in omega (arith, l))
    ]

    trim_blank :
        (n : ℕ) (ps : List (List ℕ))
        → All Q ps
        → length (flatten ps) ≤ n
        → trim_with n tbl (flatten ps) ≡ []
    trim_blank n ps q h =
        let all = append-nil (flatten ps) in
        let (m, room, same) = trim_front n ps [] q (subst (λ t. length t ≤ n) (sym all) h) in
        ap (trim_with n tbl) (sym all) ∙ (same ∙ trim_nil m)

    -- What is left of the plain text mid and of what follows it.
    abbrev pub IsLeft : (mid z t : List ℕ) → Type 0
    IsLeft mid z t =
        (m : List ℕ) × All IsPlain m × (compact m ≡ compact mid) × ((t ≡ m ++ z) ⊎ (t ≡ m))

    trim_mid :
        (n : ℕ) (mid : List ℕ) (ps : List (List ℕ))
        → All IsPlain mid
        → All Q ps
        → length (mid ++ flatten ps) ≤ n
        → IsLeft mid (flatten ps) (trim_with n tbl (mid ++ flatten ps))
    trim_mid n [] ps pl q h = ([], tt, refl, inr (trim_blank n ps q h))
    trim_mid zero (c ∷ mid) ps pl q h = absurd (omega (arith, h))
    trim_mid (suc n) (c ∷ mid) ps (one, pl) q h =
        elim (Option-cases (strip_any tbl (c ∷ (mid ++ flatten ps)))) [
          | inl e ↦ (c ∷ mid, (one, pl), refl, inl (trim_stop n tbl _ e))
          | inr (t, e) ↦
              let (same, gap) = any_of_plain tbl c (mid ++ flatten ps) t sp one e in
              let (m, plain, left, is) = trim_mid n mid ps pl q (omega (arith, h)) in
              let eq = trim_more n tbl _ t e ∙ ap (trim_with n tbl) (sym same) in
              (
                m,
                plain,
                left ∙ sym (compact_gap c mid one gap),
                subst (λ t. (t ≡ m ++ flatten ps) ⊎ (t ≡ m)) (sym eq) is,
              )
        ]

    -- White space, plain text, white space: the first goes, the text keeps its digits.
    pub trim_with-IsLeft :
        (n : ℕ) (ps : List (List ℕ)) (mid : List ℕ) (qs : List (List ℕ))
        → All Q ps
        → All IsPlain mid
        → All Q qs
        → length (flatten ps ++ (mid ++ flatten qs)) ≤ n
        → IsLeft mid (flatten qs) (trim_with n tbl (flatten ps ++ (mid ++ flatten qs)))
    trim_with-IsLeft n ps mid qs p pl q h =
        let (m, room, same) = trim_front n ps (mid ++ flatten qs) p h in
        subst (IsLeft mid (flatten qs)) (sym same) (trim_mid m mid qs pl q room)
