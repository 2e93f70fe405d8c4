-- ===== src/Nas/Space.antt =====
-- The white space of Unicode, as characters and as the encodings that trimming takes off.
use mathlib.Core.List.{reverse, reverse-append, reverse-reverse, append-nil, append_assoc}
use proto_test.Base.{
  ℕ, ◌+◌, ◌/◌, ◌%◌, ◌≡◌, refl, sym, ap, subst, ◌∙◌, ◌⊎◌, inl, inr, List, [], ◌∷◌, ◌++◌, map, some,
  All, if◌then◌else◌, leb,
}
use proto_test.Nas.{strip_prefix, strip_any, spaces, spaces_reversed}

-- The characters that are `unicode.IsSpace`.
abbrev pub white_space : List ℕ
white_space =
    9 ∷ 10 ∷ 11 ∷ 12 ∷ 13 ∷ 32 ∷ 0x85 ∷ 0xA0 ∷ 0x1680 ∷ 0x2000 ∷ 0x2001 ∷ 0x2002 ∷ 0x2003 ∷ 0x2004
    ∷ 0x2005 ∷ 0x2006 ∷ 0x2007 ∷ 0x2008 ∷ 0x2009 ∷ 0x200A ∷ 0x2028 ∷ 0x2029 ∷ 0x202F ∷ 0x205F
    ∷ 0x3000 ∷ []

-- UTF-8, of characters below 2^16.
abbrev pub utf8 : ℕ → List ℕ
utf8 c =
    if leb c 0x7F
    then c ∷ []
    else if leb c 0x7FF
    then (0xC0 + c / 64) ∷ ((0x80 + c % 64) ∷ [])
    else (0xE0 + c / 4096) ∷ ((0x80 + c / 64 % 64) ∷ ((0x80 + c % 64) ∷ []))

abbrev pub IsOneOf : ℕ → List ℕ → Type 0
IsOneOf c [] = ⊥
IsOneOf c (x ∷ xs) = (c ≡ x) ⊎ IsOneOf c xs

-- The encoding of a character that is white space.
abbrev pub IsSpaceText : List ℕ → Type 0
IsSpaceText p = (c : ℕ) × IsOneOf c white_space × (p ≡ utf8 c)

abbrev pub flatten : List (List ℕ) → List ℕ
flatten [] = []
flatten (p ∷ ps) = p ++ flatten ps

-- White space only.
abbrev pub IsBlankText : List ℕ → Type 0
IsBlankText s = (ps : List (List ℕ)) × All IsSpaceText ps × (s ≡ flatten ps)

-- What holds of all holds of one.
one_of_all : (P : ℕ → Type 0) (xs : List ℕ) → All P xs → (c : ℕ) → IsOneOf c xs → P c
one_of_all P [] h c k = absurd k
one_of_all P (x ∷ xs) (h, hs) c (inl e) = subst P (sym e) h
one_of_all P (x ∷ xs) (h, hs) c (inr k) = one_of_all P xs hs c k

module _ (P : List ℕ → Type 0) where
  all_map : (f : ℕ → List ℕ) (xs : List ℕ) → ((c : ℕ) → IsOneOf c xs → P (f c)) → All P (map f xs)
  all_map f [] h = tt
  all_map f (x ∷ xs) h = (h x (inl refl), all_map f xs (λ c k. h c (inr k)))

-- The tables of trimming are the encodings of white space.
spaces-eq : spaces ≡ map utf8 white_space
spaces-eq = refl

reversed_eq : spaces_reversed ≡ map (λ c. reverse (utf8 c)) white_space
reversed_eq = refl

pub spaces-IsSpaceText : All IsSpaceText spaces
spaces-IsSpaceText = all_map IsSpaceText utf8 white_space (λ c k. (c, k, refl))

abbrev pub IsReversed : List ℕ → Type 0
IsReversed p = IsSpaceText (reverse p)

pub spaces_reversed-IsReversed : All IsReversed spaces_reversed
spaces_reversed-IsReversed =
    all_map IsReversed (λ c. reverse (utf8 c)) white_space (λ c k. (c, k, reverse-reverse (utf8 c)))

abbrev Strips : ℕ → Type 0
Strips c =
    (r : List ℕ)
    → (strip_any spaces (utf8 c ++ r) ≡ some r)
      × (strip_any spaces_reversed (reverse (utf8 c) ++ r) ≡ some r)

all_strip : All Strips white_space
unfolding strip_any strip_prefix
all_strip = (
  λ r. (refl, refl),
  (
    λ r. (refl, refl),
    (
      λ r. (refl, refl),
      (
        λ r. (refl, refl),
        (
          λ r. (refl, refl),
          (
            λ r. (refl, refl),
            (
              λ r. (refl, refl),
              (
                λ r. (refl, refl),
                (
                  λ r. (refl, refl),
                  (
                    λ r. (refl, refl),
                    (
                      λ r. (refl, refl),
                      (
                        λ r. (refl, refl),
                        (
                          λ r. (refl, refl),
                          (
                            λ r. (refl, refl),
                            (
                              λ r. (refl, refl),
                              (
                                λ r. (refl, refl),
                                (
                                  λ r. (refl, refl),
                                  (
                                    λ r. (refl, refl),
                                    (
                                      λ r. (refl, refl),
                                      (
                                        λ r. (refl, refl),
                                        (
                                          λ r. (refl, refl),
                                          (
                                            λ r. (refl, refl),
                                            (
                                              λ r. (refl, refl),
                                              (λ r. (refl, refl), (λ r. (refl, refl), tt)),
                                            ),
                                          ),
                                        ),
                                      ),
                                    ),
                                  ),
                                ),
                              ),
                            ),
                          ),
                        ),
                      ),
                    ),
                  ),
                ),
              ),
            ),
          ),
        ),
      ),
    ),
  ),
)

pub strip_any_space : (p r : List ℕ) → IsSpaceText p → strip_any spaces (p ++ r) ≡ some r
strip_any_space p r (c, k, e) = rw e (one_of_all Strips white_space all_strip c k r).0

pub strip_any_reversed : (p r : List ℕ) → IsReversed p → strip_any spaces_reversed (p ++ r) ≡ some r
strip_any_reversed p r (c, k, e) =
    let e' : p ≡ reverse (utf8 c) = sym (reverse-reverse p) ∙ ap reverse e in
    rw e' (one_of_all Strips white_space all_strip c k r).1

-- The prefixes of a reversed text are the reversed prefixes, from the last to the first.
module _ (P R : List ℕ → Type 0) (turn : (p : List ℕ) → P p → R (reverse p)) where
  flatten_last : (rs : List (List ℕ)) (q : List ℕ) → flatten (rs ++ q ∷ []) ≡ flatten rs ++ q
  flatten_last [] q = append-nil q
  flatten_last (r ∷ rs) q =
      ap (λ z. r ++ z) (flatten_last rs q) ∙ sym (append_assoc r (flatten rs) q)

  all_last : (rs : List (List ℕ)) (q : List ℕ) → All R rs → R q → All R (rs ++ q ∷ [])
  all_last [] q h k = (k, tt)
  all_last (r ∷ rs) q (h, hs) k = (h, all_last rs q hs k)

  pub reverse-flatten :
      (ps : List (List ℕ))
      → All P ps
      → (rs : List (List ℕ)) × All R rs × (reverse (flatten ps) ≡ flatten rs)
  reverse-flatten [] h = ([], tt, refl)
  reverse-flatten (p ∷ ps) (h, hs) =
      let (rs, all, e) = reverse-flatten ps hs in
      (
        rs ++ reverse p ∷ [],
        all_last rs (reverse p) all (turn p h),
        reverse-append p (flatten ps)
            ∙ (ap (λ z. z ++ reverse p) e ∙ sym (flatten_last rs (reverse p))),
      )

pub turned : (p : List ℕ) → IsSpaceText p → IsReversed (reverse p)
turned p h = subst IsSpaceText (sym (reverse-reverse p)) h
