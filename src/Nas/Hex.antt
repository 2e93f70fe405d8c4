-- ===== src/Nas/Hex.antt =====
-- What hexadecimal text spells, and that decoding agrees with it.
use proto_test.Base.{
  ℕ, ◌+◌, ◌*◌, ◌≡◌, refl, sym, ap, subst, List, [], ◌∷◌, Option, none, some, Result, ok, err,
}
use proto_test.Nas.{hex_value, joined, odd, hex_decode}

-- The byte that the digits a and b spell, the high one first.
abbrev pub SpellsByte : ℕ → ℕ → ℕ → Type 0
SpellsByte a b x =
    (hi : ℕ) × (lo : ℕ) × (hex_value a ≡ some hi) × (hex_value b ≡ some lo) × (x ≡ hi * 16 + lo)

-- The text spells the bytes: two digits each.
abbrev pub Spells : List ℕ → List ℕ → Type 0
Spells [] [] = Unit
Spells (a ∷ (b ∷ s)) (x ∷ bs) = SpellsByte a b x × Spells s bs
Spells _ _ = ⊥

odd_fails : (a : ℕ) (o : Option ℕ) (bs : List ℕ) → odd a o ≡ ok bs → ⊥
odd_fails a none bs h = absurd (cc h)
odd_fails a (some x) bs h = absurd (cc h)

-- A pair decodes only where both are digits and the rest decodes.
joined_ok :
    (a b : ℕ) (p q : Option ℕ) (rest : Result (List ℕ)) (bs : List ℕ)
    → joined a b p q rest ≡ ok bs
    → (hi : ℕ) × (lo : ℕ) × (tail : List ℕ) × (p ≡ some hi)
      × (q ≡ some lo)
      × (rest ≡ ok tail)
      × (bs ≡ (hi * 16 + lo) ∷ tail)
joined_ok a b none q rest bs h = absurd (cc h)
joined_ok a b (some hi) none rest bs h = absurd (cc h)
joined_ok a b (some hi) (some lo) (err e) bs h = absurd (cc h)
joined_ok a b (some hi) (some lo) (ok tail) bs h = (hi, lo, tail, refl, refl, refl, cc h)

pub hex_decode-Spells : (s bs : List ℕ) → Spells s bs → hex_decode s ≡ ok bs
unfolding hex_decode
hex_decode-Spells [] [] h = refl
hex_decode-Spells [] (x ∷ bs) h = absurd h
hex_decode-Spells (a ∷ []) [] h = absurd h
hex_decode-Spells (a ∷ []) (x ∷ bs) h = absurd h
hex_decode-Spells (a ∷ (b ∷ s)) [] h = absurd h
hex_decode-Spells (a ∷ (b ∷ s)) (x ∷ bs) ((hi, lo, p, q, e), rest) =
    rw (p, q, hex_decode-Spells s bs rest) (ap (λ y. ok (y ∷ bs)) (sym e))

pub Spells-hex_decode : (s bs : List ℕ) → hex_decode s ≡ ok bs → Spells s bs
unfolding hex_decode
Spells-hex_decode [] [] h = tt
Spells-hex_decode [] (x ∷ bs) h = absurd (cc h)
Spells-hex_decode (a ∷ []) bs h = absurd (odd_fails a (hex_value a) bs h)
Spells-hex_decode (a ∷ (b ∷ s)) bs h =
    let (hi, lo, tail, p, q, r, e) =
      joined_ok a b (hex_value a) (hex_value b) (hex_decode s) bs h in
    subst (Spells (a ∷ (b ∷ s))) (sym e) ((hi, lo, p, q, refl), Spells-hex_decode s tail r)
