-- ===== src/Cli/Path.antt =====
-- Which arguments name the configuration file.
use Prim.Native.String.{String}
use text.Mathlib.Text.{◌==◌ as str_eq}
use proto_test.Base.{◌≡◌, refl, ◌∙◌, List, [], ◌∷◌, ◌++◌, false, none, some, All}
use proto_test.Cli.{after_prefix, inline_path, config_path_from_args}

-- An argument of neither form.
pub record IsOther (arg : String) : Type 0 where
  pub not_flag : str_eq arg "--config" ≡ false
  pub not_inline : after_prefix "--config=" arg ≡ none

inline_path-other : (arg later : String) → IsOther arg → inline_path arg later ≡ later
unfolding inline_path
inline_path-other arg later h = rw (h.not_inline, inline_path) refl

skips_one :
    (arg : String) (args : List String)
    → IsOther arg
    → config_path_from_args (arg ∷ args) ≡ config_path_from_args args
unfolding config_path_from_args
skips_one arg [] h = inline_path-other arg "" h
skips_one arg (next ∷ rest) h = rw h.not_flag (inline_path-other arg _ h)

skips :
    (others args : List String)
    → All IsOther others
    → config_path_from_args (others ++ args) ≡ config_path_from_args args
skips [] args h = refl
skips (arg ∷ others) args h = skips_one arg (others ++ args) h.0 ∙ skips others args h.1

flag_value :
    (path : String) (rest : List String) → config_path_from_args ("--config" ∷ (path ∷ rest)) ≡ path
unfolding config_path_from_args
flag_value path rest = refl

all_other : (others : List String) → All IsOther others → config_path_from_args others ≡ ""
unfolding config_path_from_args
all_other [] h = refl
all_other (arg ∷ others) h = skips_one arg others h.0 ∙ all_other others h.1

-- The argument `--config=PATH`, with a path that is not empty.
pub record IsInline (arg path : String) : Type 0 where
  pub not_flag : str_eq arg "--config" ≡ false
  pub inline : after_prefix "--config=" arg ≡ some path
  pub not_empty : str_eq path "" ≡ false

inline_path-IsInline : (arg path later : String) → IsInline arg path → inline_path arg later ≡ path
unfolding inline_path
inline_path-IsInline arg path later h = rw (h.inline, inline_path) (rw h.not_empty refl)

inline_value :
    (arg path : String) (rest : List String)
    → IsInline arg path
    → config_path_from_args (arg ∷ rest) ≡ path
unfolding config_path_from_args
inline_value arg path [] h = inline_path-IsInline arg path "" h
inline_value arg path (next ∷ rest) h = rw h.not_flag (inline_path-IsInline arg path _ h)

-- Behind any other arguments, which are none of the two forms, and before any arguments at all:
-- `--config PATH` gives the path, and so does `--config=PATH` with a path that is not empty; without
-- either form there is no path.
pub config_path_from_args-first :
    (others rest : List String) (arg path : String)
    → All IsOther others
    → IsInline arg path
    → (config_path_from_args (others ++ ("--config" ∷ (path ∷ rest))) ≡ path)
      × (config_path_from_args (others ++ (arg ∷ rest)) ≡ path)
      × (config_path_from_args others ≡ "")
config_path_from_args-first others rest arg path h i = (
  skips others ("--config" ∷ (path ∷ rest)) h ∙ flag_value path rest,
  skips others (arg ∷ rest) h ∙ inline_value arg path rest i,
  all_other others h,
)
