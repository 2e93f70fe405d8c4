-- ===== src/Nas/Steps.antt =====
-- The steps of taking prefixes off, as equations.
use proto_test.Base.{ℕ, suc, ◌≡◌, refl, true, false, ◌==◌, List, ◌∷◌, none, some}
use proto_test.Nas.{strip_prefix, strip_any, trim_with}

pub prefix_same :
    (x : ℕ) (p : List ℕ) (c : ℕ) (s : List ℕ)
    → (x == c) ≡ true
    → strip_prefix (x ∷ p) (c ∷ s) ≡ strip_prefix p s
unfolding strip_prefix
prefix_same x p c s e = rw e refl

pub prefix_other :
    (x : ℕ) (p : List ℕ) (c : ℕ) (s : List ℕ)
    → (x == c) ≡ false
    → strip_prefix (x ∷ p) (c ∷ s) ≡ none
unfolding strip_prefix
prefix_other x p c s e = rw e refl

pub any_first :
    (p : List ℕ) (ps : List (List ℕ)) (s t : List ℕ)
    → strip_prefix p s ≡ some t
    → strip_any (p ∷ ps) s ≡ some t
unfolding strip_any
any_first p ps s t e = rw (e, strip_any) refl

pub any_later :
    (p : List ℕ) (ps : List (List ℕ)) (s : List ℕ)
    → strip_prefix p s ≡ none
    → strip_any (p ∷ ps) s ≡ strip_any ps s
unfolding strip_any
any_later p ps s e = rw (e, strip_any) refl

pub trim_stop :
    (n : ℕ) (ps : List (List ℕ)) (s : List ℕ) → strip_any ps s ≡ none → trim_with (suc n) ps s ≡ s
unfolding trim_with
trim_stop n ps s e = rw (e, trim_with) refl

pub trim_more :
    (n : ℕ) (ps : List (List ℕ)) (s t : List ℕ)
    → strip_any ps s ≡ some t
    → trim_with (suc n) ps s ≡ trim_with n ps t
unfolding trim_with
trim_more n ps s t e = rw (e, trim_with) refl
