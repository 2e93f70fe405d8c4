-- ===== src/Tests/Nas.antt =====
-- A template in hexadecimal, with a blank and line ends in it.
use Prim.Native.String.{String}
use proto_test.Base.{ℕ, ◌≡◌, ◌↔◌, refl, List, [], ◌∷◌, true, false, Result, ok}
use proto_test.Nas.{load_template}
use proto_test.Nas.Template.{IsTemplate, load_template-Spells}

-- The text " 7e 0A" between two line ends.
abbrev pub text : List ℕ
text = 10 ∷ (32 ∷ (55 ∷ (101 ∷ (32 ∷ (48 ∷ (65 ∷ (10 ∷ [])))))))

abbrev pub read_file : String → Result (List ℕ)
read_file path = ok text

load_template-Spells_example :
    (load_template read_file "nas.hex" false ≡ ok text)
    × ((bs : List ℕ) → (load_template read_file "nas.hex" true ≡ ok bs) ↔ IsTemplate text bs)
load_template-Spells_example = load_template-Spells read_file "nas.hex" text refl

pub text-loaded : load_template read_file "nas.hex" true ≡ ok (0x7E ∷ (0x0A ∷ []))
unfolding load_template
text-loaded = refl
