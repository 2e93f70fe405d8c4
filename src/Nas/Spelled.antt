-- ===== src/Nas/Spelled.antt =====
-- What hexadecimal text with gaps spells, said of its characters.
use proto_test.Base.{
  ℕ, ◌+◌, ◌*◌, ◌≤◌, ◌<◌, ◌≡◌, ◌≢◌, refl, sym, subst, ◌∙◌, ◌⊎◌, inl, inr, List, [], ◌∷◌, ◌==◌, arith,
  ap, some, Bool-cases, ==→eq,
}
use proto_test.Nas.{hex_value, remove_byte, compact}
use proto_test.Nas.Hex.{Spells}
use proto_test.Nas.Trim.{kept, compact_gap}

-- A digit and its value: `0` to `9`, `a` to `f` or `A` to `F`.
abbrev pub IsHexDigit : (c v : ℕ) → Type 0
IsHexDigit c v = ((v < 10) × (c ≡ 48 + v)) ⊎ ((10 ≤ v) × (v < 16) × ((c ≡ 87 + v) ⊎ (c ≡ 55 + v)))

-- A blank or a line end.
abbrev pub IsGap : ℕ → Type 0
IsGap c = (c ≡ 32) ⊎ (c ≡ 10)

-- The text has digits of these values, in this order, and gaps.
abbrev pub HasDigits : (s vs : List ℕ) → Type 0
HasDigits [] vs = vs ≡ []
HasDigits (c ∷ s) vs =
    (IsGap c × HasDigits s vs)
    ⊎ ((v : ℕ) × (ws : List ℕ) × IsHexDigit c v × HasDigits s ws × (vs ≡ v ∷ ws))

-- Two values make a byte, the high one first.
abbrev pub Pairs : (vs bs : List ℕ) → Type 0
Pairs [] [] = Unit
Pairs (hi ∷ (lo ∷ vs)) (x ∷ bs) = (x ≡ hi * 16 + lo) × Pairs vs bs
Pairs _ _ = ⊥

abbrev pub IsSpelled : (s bs : List ℕ) → Type 0
IsSpelled s bs = (vs : List ℕ) × HasDigits s vs × Pairs vs bs

hex_value-IsHexDigit : (c v : ℕ) → hex_value c ≡ some v → IsHexDigit c v
unfolding hex_value
hex_value-IsHexDigit c v h = ground arith

IsHexDigit-hex_value : (c v : ℕ) → IsHexDigit c v → hex_value c ≡ some v
unfolding hex_value
IsHexDigit-hex_value c v h = ground arith

-- The values of a text of digits only.
abbrev Values : (s vs : List ℕ) → Type 0
Values [] [] = Unit
Values (c ∷ s) (v ∷ vs) = (hex_value c ≡ some v) × Values s vs
Values _ _ = ⊥

Spells-Values : (s bs : List ℕ) → Spells s bs → (vs : List ℕ) × Values s vs × Pairs vs bs
Spells-Values [] [] h = ([], tt, tt)
Spells-Values [] (x ∷ bs) h = absurd h
Spells-Values (a ∷ []) [] h = absurd h
Spells-Values (a ∷ []) (x ∷ bs) h = absurd h
Spells-Values (a ∷ (b ∷ s)) [] h = absurd h
Spells-Values (a ∷ (b ∷ s)) (x ∷ bs) ((hi, lo, p, q, e), rest) =
    let (vs, values, pairs) = Spells-Values s bs rest in
    (hi ∷ (lo ∷ vs), (p, (q, values)), (e, pairs))

Values-Spells : (s vs bs : List ℕ) → Values s vs → Pairs vs bs → Spells s bs
Values-Spells [] [] [] h k = tt
Values-Spells [] [] (x ∷ bs) h k = absurd k
Values-Spells [] (v ∷ vs) bs h k = absurd h
Values-Spells (a ∷ s) [] bs h k = absurd h
Values-Spells (a ∷ []) (v ∷ []) bs h k = no_pair bs k
  where
    no_pair : (bs : List ℕ) → Pairs (v ∷ []) bs → Spells (a ∷ []) bs
    no_pair [] k = absurd k
    no_pair (x ∷ bs) k = absurd k
Values-Spells (a ∷ []) (v ∷ (w ∷ vs)) bs h k = absurd h.1
Values-Spells (a ∷ (b ∷ s)) (v ∷ []) bs h k = absurd h.1
Values-Spells (a ∷ (b ∷ s)) (v ∷ (w ∷ vs)) [] h k = absurd k
Values-Spells (a ∷ (b ∷ s)) (v ∷ (w ∷ vs)) (x ∷ bs) (p, (q, h)) (e, k) =
    ((v, w, p, q, e), Values-Spells s vs bs h k)

compact_kept : (c : ℕ) (s : List ℕ) → c ≢ 32 → c ≢ 10 → compact (c ∷ s) ≡ c ∷ compact s
unfolding compact
compact_kept c s not_blank not_end =
    ap (remove_byte 10) (kept 32 c s (ground arith)) ∙ kept 10 c (remove_byte 32 s) (ground arith)

gap_taken : (c : ℕ) (s : List ℕ) → IsGap c → compact (c ∷ s) ≡ compact s
gap_taken c s (inl e) = compact_gap c s (inr (inl e)) (omega arith)
gap_taken c s (inr e) = compact_gap c s (inl e) (omega arith)

HasDigits-Values : (s vs : List ℕ) → HasDigits s vs → Values (compact s) vs
HasDigits-Values [] vs h = unfold compact remove_byte in subst (Values []) (sym h) tt
HasDigits-Values (c ∷ s) vs (inl (gap, h)) =
    subst (λ t. Values t vs) (sym (gap_taken c s gap)) (HasDigits-Values s vs h)
HasDigits-Values (c ∷ s) vs (inr (v, ws, d, h, e)) =
    rw (e, compact_kept c s (λ is. omega arith) (λ is. omega arith))
      (IsHexDigit-hex_value c v d, HasDigits-Values s ws h)

-- A character in front of a text whose digits are known.
first_digit :
    (c : ℕ) (s vs : List ℕ)
    → ((ws : List ℕ) → Values (compact s) ws → HasDigits s ws)
    → Values (c ∷ compact s) vs
    → HasDigits (c ∷ s) vs
first_digit c s [] rest h = absurd h
first_digit c s (v ∷ ws) rest (d, h) = inr (v, ws, hex_value-IsHexDigit c v d, rest ws h, refl)

after_gap :
    (c : ℕ) (s vs : List ℕ)
    → ((ws : List ℕ) → Values (compact s) ws → HasDigits s ws)
    → IsGap c
    → Values (compact (c ∷ s)) vs
    → HasDigits (c ∷ s) vs
after_gap c s vs rest gap h = inl (gap, rest vs (subst (λ t. Values t vs) (gap_taken c s gap) h))

Values-HasDigits : (s vs : List ℕ) → Values (compact s) vs → HasDigits s vs
Values-HasDigits [] [] h = refl
Values-HasDigits [] (v ∷ vs) h = absurd (unfold compact remove_byte in h)
Values-HasDigits (c ∷ s) vs h =
    let rest : (ws : List ℕ) → Values (compact s) ws → HasDigits s ws =
      (λ ws k. Values-HasDigits s ws k) in
    elim (Bool-cases (c == 32)) [
      | inl blank ↦ after_gap c s vs rest (inl (==→eq c 32 blank)) h
      | inr not_blank ↦ elim (Bool-cases (c == 10)) [
        | inl end ↦ after_gap c s vs rest (inr (==→eq c 10 end)) h
        | inr not_end ↦
            first_digit c s vs rest (
              subst (λ t. Values t vs) (compact_kept c s (λ e. ground arith) (λ e. ground arith)) h)
      ]
    ]

pub Spells-IsSpelled : (s bs : List ℕ) → Spells (compact s) bs → IsSpelled s bs
Spells-IsSpelled s bs h =
    let (vs, values, pairs) = Spells-Values (compact s) bs h in
    (vs, Values-HasDigits s vs values, pairs)

pub IsSpelled-Spells : (s bs : List ℕ) → IsSpelled s bs → Spells (compact s) bs
IsSpelled-Spells s bs (vs, digits, pairs) =
    Values-Spells (compact s) vs bs (HasDigits-Values s vs digits) pairs
