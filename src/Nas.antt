-- ===== src/Nas.antt =====
-- pkg/nas/template.go: reading a payload from a file, as it is or as hexadecimal text.
-- Texts are byte lists, as Go's strings are; the functions of strings and encoding/hex follow.
pub mod Steps
pub mod Trim
pub mod Ends
pub mod Hex
pub mod Template
pub mod Spelled
pub mod Space
pub mod Peel
use Prim.Native.String.{String}
use mathlib.Core.List.{reverse}
use proto_test.Base.{
  ℕ, zero, suc, ◌+◌, ◌-◌, ◌*◌, Bool, true, false, not, ◌&&◌, List, [], ◌∷◌, ◌++◌, map, length,
  Option, none, some, ◌==◌, leb, if◌then◌else◌, Error, message_number, message, wrap, Result, ok,
  err,
}

-- The text behind a prefix.
unfoldable pub strip_prefix : List ℕ → List ℕ → Option (List ℕ)
strip_prefix [] s = some s
strip_prefix (x ∷ p) [] = none
strip_prefix (x ∷ p) (c ∷ s) = let rest = strip_prefix p s in if x == c then rest else none

unfoldable pub strip_any : List (List ℕ) → List ℕ → Option (List ℕ)
unfolding strip_prefix
strip_any [] s = none
strip_any (p ∷ ps) s =
    let rest = strip_any ps s in elim (strip_prefix p s) [ some r ↦ some r | none ↦ rest ]

-- Takes prefixes off while there is one, at most as often as the first argument says.
unfoldable pub trim_with : ℕ → List (List ℕ) → List ℕ → List ℕ
unfolding strip_any
trim_with zero ps s = s
trim_with (suc n) ps s = elim (strip_any ps s) [ none ↦ s | some r ↦ trim_with n ps r ]

-- The UTF-8 encodings of the characters that `unicode.IsSpace` accepts.
abbrev pub spaces : List (List ℕ)
spaces =
    (9 ∷ [])
    ∷ (10 ∷ [])
    ∷ (11 ∷ [])
    ∷ (12 ∷ [])
    ∷ (13 ∷ [])
    ∷ (32 ∷ [])
    ∷ (0xC2 ∷ 0x85 ∷ [])
    ∷ (0xC2 ∷ 0xA0 ∷ [])
    ∷ (0xE1 ∷ 0x9A ∷ 0x80 ∷ [])
    ∷ (0xE2 ∷ 0x80 ∷ 0x80 ∷ [])
    ∷ (0xE2 ∷ 0x80 ∷ 0x81 ∷ [])
    ∷ (0xE2 ∷ 0x80 ∷ 0x82 ∷ [])
    ∷ (0xE2 ∷ 0x80 ∷ 0x83 ∷ [])
    ∷ (0xE2 ∷ 0x80 ∷ 0x84 ∷ [])
    ∷ (0xE2 ∷ 0x80 ∷ 0x85 ∷ [])
    ∷ (0xE2 ∷ 0x80 ∷ 0x86 ∷ [])
    ∷ (0xE2 ∷ 0x80 ∷ 0x87 ∷ [])
    ∷ (0xE2 ∷ 0x80 ∷ 0x88 ∷ [])
    ∷ (0xE2 ∷ 0x80 ∷ 0x89 ∷ [])
    ∷ (0xE2 ∷ 0x80 ∷ 0x8A ∷ [])
    ∷ (0xE2 ∷ 0x80 ∷ 0xA8 ∷ [])
    ∷ (0xE2 ∷ 0x80 ∷ 0xA9 ∷ [])
    ∷ (0xE2 ∷ 0x80 ∷ 0xAF ∷ [])
    ∷ (0xE2 ∷ 0x81 ∷ 0x9F ∷ [])
    ∷ (0xE3 ∷ 0x80 ∷ 0x80 ∷ [])
    ∷ []

-- The same encodings, from their last byte to their first.
abbrev pub spaces_reversed : List (List ℕ)
spaces_reversed = map reverse spaces

-- `strings.TrimSpace`
unfoldable pub trim_space : List ℕ → List ℕ
unfolding trim_with
trim_space s =
    let t = trim_with (length s) spaces s in
    reverse (trim_with (length t) spaces_reversed (reverse t))

-- `strings.ReplaceAll(s, b, "")` for a text b of one byte.
unfoldable pub remove_byte : ℕ → List ℕ → List ℕ
remove_byte b [] = []
remove_byte b (c ∷ s) = let rest = remove_byte b s in if c == b then rest else c ∷ rest

-- Without blanks and line ends.
unfoldable pub compact : List ℕ → List ℕ
unfolding remove_byte
compact s = remove_byte 10 (remove_byte 32 s)

-- The value of a hexadecimal digit, in lower or upper case.
unfoldable pub hex_value : ℕ → Option ℕ
hex_value c =
    if leb 48 c && leb c 57
    then some (c - 48)
    else if leb 97 c && leb c 102
    then some (c - 87)
    else if leb 65 c && leb c 70
    then some (c - 55)
    else none

abbrev pub invalid_byte : ℕ → Error
invalid_byte c = message_number "encoding/hex: invalid byte: %#U" c

abbrev pub in_front : ℕ → Result (List ℕ) → Result (List ℕ)
in_front x (ok bs) = ok (x ∷ bs)
in_front x (err e) = err e

abbrev pub joined : ℕ → ℕ → Option ℕ → Option ℕ → Result (List ℕ) → Result (List ℕ)
joined a b none q rest = err (invalid_byte a)
joined a b (some hi) none rest = err (invalid_byte b)
joined a b (some hi) (some lo) rest = in_front (hi * 16 + lo) rest

abbrev pub odd : ℕ → Option ℕ → Result (List ℕ)
odd a none = err (invalid_byte a)
odd a (some x) = err (message "encoding/hex: odd length hex string")

-- `hex.DecodeString`
unfoldable pub hex_decode : List ℕ → Result (List ℕ)
unfolding hex_value
hex_decode [] = ok []
hex_decode (a ∷ []) = odd a (hex_value a)
hex_decode (a ∷ (b ∷ s)) = joined a b (hex_value a) (hex_value b) (hex_decode s)

abbrev pub invalid_template : Result (List ℕ) → Result (List ℕ)
invalid_template (ok bs) = ok bs
invalid_template (err e) = err (wrap "invalid hex template: %w" e)

-- What follows `os.ReadFile`.
unfoldable pub template_of_file : Bool → List ℕ → Result (List ℕ)
unfolding trim_space compact hex_decode
template_of_file is_hex raw =
    if not is_hex then ok raw else invalid_template (hex_decode (compact (trim_space raw)))

-- `LoadTemplate`, with `os.ReadFile`.
unfoldable pub load_template : (String → Result (List ℕ)) → String → Bool → Result (List ℕ)
unfolding template_of_file
load_template read_file path is_hex = elim (read_file path) [
  | err e ↦ err e
  | ok raw ↦ template_of_file is_hex raw
]
