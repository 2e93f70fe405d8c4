-- ===== src/Nas/Trim.antt =====
-- Plain text: what taking blanks and line ends out of it does.
use mathlib.Core.List.{append-nil, reverse, reverse-cons}
use proto_test.Base.{
  ℕ, ◌≤◌, ◌<◌, ◌≡◌, refl, sym, subst, ◌⊎◌, inl, inr, true, false, Bool-cases, ◌==◌, ==→eq, arith,
  List, [], ◌∷◌, ◌++◌, some, All,
}
use proto_test.Nas.{remove_byte, compact, hex_value}
use proto_test.Nas.Hex.{Spells}

-- A blank, a line end, or an ASCII character above them.
abbrev pub IsPlain : ℕ → Type 0
IsPlain c = (c ≡ 10) ⊎ ((c ≡ 32) ⊎ (33 ≤ c × c < 128))

-- What no plain character but a gap begins.
abbrev pub IsSpace : List ℕ → Type 0
IsSpace [] = ⊥
IsSpace (c ∷ []) = c ≤ 32
IsSpace (c ∷ (d ∷ p)) = 128 ≤ c

module _ (b : ℕ) where
  remove_byte-append : (s t : List ℕ) → remove_byte b (s ++ t) ≡ remove_byte b s ++ remove_byte b t
  unfolding remove_byte
  remove_byte-append [] t = refl
  remove_byte-append (c ∷ s) t = elim (Bool-cases (c == b)) [
    | inl h ↦ rw (h, remove_byte-append s t) refl
    | inr h ↦ rw (h, remove_byte-append s t) refl
  ]

  removed : (c : ℕ) (s : List ℕ) → (c == b) ≡ true → remove_byte b (c ∷ s) ≡ remove_byte b s
  unfolding remove_byte
  removed c s e = rw e refl

  pub kept : (c : ℕ) (s : List ℕ) → (c == b) ≡ false → remove_byte b (c ∷ s) ≡ c ∷ remove_byte b s
  unfolding remove_byte
  kept c s e = rw e refl

  remove_byte_all :
      (P : ℕ → Type 0) (s : List ℕ) → All P (remove_byte b s) → All (λ c. (c ≡ b) ⊎ P c) s
  unfolding remove_byte
  remove_byte_all P [] h = tt
  remove_byte_all P (c ∷ s) h = elim (Bool-cases (c == b)) [
    | inl e ↦ (inl (==→eq c b e), remove_byte_all P s (subst (All P) (removed c s e) h))
    | inr e ↦
        let (first, rest) = subst (All P) (kept c s e) h in (inr first, remove_byte_all P s rest)
  ]

  remove_byte-reverse : (s : List ℕ) → remove_byte b (reverse s) ≡ reverse (remove_byte b s)
  remove_byte-reverse [] = unfold remove_byte in refl
  remove_byte-reverse (c ∷ s) =
      rw (reverse-cons c s, remove_byte-append (reverse s) (c ∷ []), remove_byte-reverse s)
        (elim (Bool-cases (c == b)) [
          | inl e ↦
              rw (removed c s e, removed c [] e)
                (unfold remove_byte in append-nil (reverse (remove_byte b s)))
          | inr e ↦
              rw (kept c s e, kept c [] e)
                (unfold remove_byte in sym (reverse-cons c (remove_byte b s)))
        ])

pub compact-reverse : (s : List ℕ) → compact (reverse s) ≡ reverse (compact s)
unfolding compact
compact-reverse s = rw (remove_byte-reverse 32 s, remove_byte-reverse 10 (remove_byte 32 s)) refl

pub compact_gap : (c : ℕ) (s : List ℕ) → IsPlain c → c ≤ 32 → compact (c ∷ s) ≡ compact s
unfolding compact remove_byte
compact_gap c s (inl e) small = rw e refl
compact_gap c s (inr (inl e)) small = rw e refl
compact_gap c s (inr (inr (low, high))) small = absurd (omega arith)

all_append : (P : ℕ → Type 0) (s t : List ℕ) → All P s → All P t → All P (s ++ t)
all_append P [] t h k = k
all_append P (c ∷ s) t (h, hs) k = (h, all_append P s t hs k)

pub all_reverse : (P : ℕ → Type 0) (s : List ℕ) → All P s → All P (reverse s)
all_reverse P [] h = tt
all_reverse P (c ∷ s) (h, hs) =
    rw (reverse-cons c s) (all_append P (reverse s) (c ∷ []) (all_reverse P s hs) (h, tt))

pub high≠plain : (x c : ℕ) → 128 ≤ x → IsPlain c → (x == c) ≡ true → ⊥
high≠plain x c high (inl e) h = let same = ==→eq x c h in omega arith
high≠plain x c high (inr (inl e)) h = let same = ==→eq x c h in omega arith
high≠plain x c high (inr (inr (low, less))) h = let same = ==→eq x c h in omega arith

IsDigit : ℕ → Type 0
IsDigit c = 33 ≤ c × c < 128

hex_value-IsDigit : (c v : ℕ) → hex_value c ≡ some v → IsDigit c
unfolding hex_value IsDigit
hex_value-IsDigit c v h = ground arith

Spells-IsDigit : (s bs : List ℕ) → Spells s bs → All IsDigit s
Spells-IsDigit [] bs h = tt
Spells-IsDigit (a ∷ []) [] h = absurd h
Spells-IsDigit (a ∷ []) (x ∷ bs) h = absurd h
Spells-IsDigit (a ∷ (b ∷ s)) [] h = absurd h
Spells-IsDigit (a ∷ (b ∷ s)) (x ∷ bs) ((hi, lo, p, q, e), rest) =
    (hex_value-IsDigit a hi p, (hex_value-IsDigit b lo q, Spells-IsDigit s bs rest))

all_imply : (P Q : ℕ → Type 0) → ((c : ℕ) → P c → Q c) → (s : List ℕ) → All P s → All Q s
all_imply P Q f [] h = tt
all_imply P Q f (c ∷ s) (h, hs) = (f c h, all_imply P Q f s hs)

plain : (c : ℕ) → (c ≡ 32) ⊎ ((c ≡ 10) ⊎ IsDigit c) → IsPlain c
unfolding IsDigit
plain c (inl e) = inr (inl e)
plain c (inr (inl e)) = inl e
plain c (inr (inr h)) = inr (inr h)

-- Text whose digits spell bytes is plain.
pub Spells-IsPlain : (s bs : List ℕ) → Spells (compact s) bs → All IsPlain s
unfolding compact
Spells-IsPlain s bs h =
    all_imply (λ c. (c ≡ 32) ⊎ ((c ≡ 10) ⊎ IsDigit c)) IsPlain plain s
      (remove_byte_all 32 (λ c. (c ≡ 10) ⊎ IsDigit c) s
        (remove_byte_all 10 IsDigit (remove_byte 32 s)
          (Spells-IsDigit (remove_byte 10 (remove_byte 32 s)) bs h)))
