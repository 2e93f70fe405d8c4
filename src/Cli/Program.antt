-- ===== src/Cli/Program.antt =====
-- `main` of cmd/mock5g/main.go: the command, and the code with which the program exits.
use Prim.Native.String.{String}
use text.Mathlib.Text.{◌==◌ as str_eq}
use proto_test.Base.{
  ℕ, Bool, true, false, List, [], ◌∷◌, Option, none, some, if◌then◌else◌, Error, canceled, wrap,
  wrap_step, message_text,
}

-- `errors.Is(err, context.Canceled)`
unfoldable pub is_canceled : Error → Bool
is_canceled canceled = true
is_canceled (wrap s e) = is_canceled e
is_canceled (wrap_step k pps e) = is_canceled e
is_canceled _ = false

unfoldable pub exit_code : Option Error → ℕ
unfolding is_canceled
exit_code none = 0
exit_code (some e) = if is_canceled e then 0 else 1

-- The `switch` on the command, with what `runAMF` and `runGNB` return on the arguments behind it.
unfoldable pub command :
    (List String → Option Error)
    → (List String → Option Error)
    → String
    → List String
    → Option Error
command run_amf run_gnb cmd args =
    if str_eq cmd "amf"
    then run_amf args
    else if str_eq cmd "gnb"
    then run_gnb args
    else some (message_text "unknown command %q" cmd)

-- `main` on `os.Args`, whose first is the program's name.
unfoldable pub main : (List String → Option Error) → (List String → Option Error) → List String → ℕ
unfolding command exit_code
main run_amf run_gnb [] = 2
main run_amf run_gnb (program ∷ []) = 2
main run_amf run_gnb (program ∷ (cmd ∷ args)) = exit_code (command run_amf run_gnb cmd args)
