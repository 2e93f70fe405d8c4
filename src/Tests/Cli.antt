-- ===== src/Tests/Cli.antt =====
-- The command line on a few arguments.
use Prim.Native.String.{String}
use proto_test.Base.{ℤ, pos, ◌≡◌, refl, [], ◌∷◌, ◌++◌, All, Result, ok}
use proto_test.Config
use proto_test.Cli.{after_prefix, inline_path, config_path_from_args, base_config, run_amf, run_gnb}
use proto_test.Cli.Path.{IsOther, IsInline, config_path_from_args-first}
use proto_test.Cli.Merge.{gnb_loses, IsTimeout, no_flags}

others : All IsOther ("--pps" ∷ ("-config" ∷ []))
unfolding after_prefix
others = (
  record { not_flag = refl; not_inline = refl },
  (record { not_flag = refl; not_inline = refl }, tt),
)

a_yaml : IsInline "--config=a.yaml" "a.yaml"
unfolding after_prefix
a_yaml = record { not_flag = refl; inline = refl; not_empty = refl }

config_path_from_args-first_example :
    (config_path_from_args (("--pps" ∷ ("-config" ∷ [])) ++ ("--config" ∷ ("a.yaml" ∷ [])))
      ≡ "a.yaml")
    × (config_path_from_args (("--pps" ∷ ("-config" ∷ [])) ++ ("--config=a.yaml" ∷ [])) ≡ "a.yaml")
    × (config_path_from_args ("--pps" ∷ ("-config" ∷ [])) ≡ "")
config_path_from_args-first_example =
    config_path_from_args-first ("--pps" ∷ ("-config" ∷ [])) [] "--config=a.yaml" "a.yaml" others
      a_yaml

-- A file that names a template, and has no connect timeout.
abbrev with_template : Config.Config
with_template = record Config.default {
  run = record Config.default.run { nas_path = "nas.hex" };
  transport = record Config.default.transport { connect_timeout = pos 0 };
}

abbrev load : String → Result Config.Config
load path = ok with_template

file_named : base_config load ("--config=a.yaml" ∷ []) ≡ ok with_template
unfolding base_config config_path_from_args inline_path after_prefix
file_named = refl

no_flags_example :
    (run_amf load (λ given f. f) ("--config=a.yaml" ∷ []) ≡ ok with_template.transport)
    × ((timeout : ℤ) × IsTimeout (pos 0) timeout
        × (run_gnb load (λ given f. f) ("--config=a.yaml" ∷ [])
            ≡ ok (gnb_loses timeout with_template)))
no_flags_example = no_flags load ("--config=a.yaml" ∷ []) with_template file_named
