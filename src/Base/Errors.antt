-- ===== src/Base/Errors.antt =====
-- Go's `error` values and (value, error) results.
use proto_test.Base.Tests.{◌==◌, if◌then◌else◌}
use proto_test.Base.Int.{ℤ}
use Prim.Native.Nat.{ℕ}
use Prim.Native.String.{String}
use mathlib.Core.Bool.{Bool, true, false, ◌||◌}

-- The errors that the program makes or passes on. `errno` is an `unix.Errno`; `foreign` is an error
-- of a library, with the answer of its `Timeout()` method (false where it has none).
pub data Error : Type 0 where
  deadline_exceeded canceled eof unexpected_eof net_timeout : Error
  message : String → Error
  message_number : String → ℕ → Error
  message_text : String → String → Error
  wrap : String → Error → Error
  wrap_step : ℕ → ℤ → Error → Error
  errno : ℕ → Error
  foreign : Bool → ℕ → Error

pub data Result {ℓ} (A : Type ℓ) : Type ℓ where
  ok : A → Result A
  err : Error → Result A

abbrev pub ◌>>=◌ {ℓ κ} : {B : Type κ} {A : Type ℓ} → Result A → (A → Result B) → Result B
err failure >>= next = err failure
ok value >>= next = next value

infixl 5 ◌>>=◌
-- A step without a value.
abbrev pub ◌>>◌ {κ} : {B : Type κ} → Result (Unit {0}) → Result B → Result B
err failure >> next = err failure
ok _ >> next = next

infixl 5 ◌>>◌
abbrev pub is_ok {ℓ} : {A : Type ℓ} → Result A → Bool
is_ok (ok a) = true
is_ok (err e) = false

-- The numbers of the Linux errors that the code compares with.
abbrev pub eintr : ℕ
eintr = 4

abbrev pub eagain : ℕ
eagain = 11

abbrev pub etimedout : ℕ
etimedout = 110

abbrev pub einprogress : ℕ
einprogress = 115

-- `err.(net.Error)` and `Timeout()` in one: the assertion does not look below a `%w`.
-- `context.DeadlineExceeded` and `unix.Errno` have the method too.
abbrev pub is_net_timeout : Error → Bool
is_net_timeout deadline_exceeded = true
is_net_timeout net_timeout = true
is_net_timeout (errno n) = n == eagain || n == etimedout
is_net_timeout (foreign t n) = t
is_net_timeout _ = false

-- `errors.Is(err, context.DeadlineExceeded)`, which does look below.
abbrev pub is_deadline_exceeded : Error → Bool
is_deadline_exceeded deadline_exceeded = true
is_deadline_exceeded (wrap s e) = is_deadline_exceeded e
is_deadline_exceeded (wrap_step i p e) = is_deadline_exceeded e
is_deadline_exceeded _ = false

-- `errors.Is(err, context.Canceled)`.
abbrev pub is_canceled : Error → Bool
is_canceled canceled = true
is_canceled (wrap s e) = is_canceled e
is_canceled (wrap_step i p e) = is_canceled e
is_canceled _ = false

-- `errors.As(err, &ne) && ne.Timeout()`: the first `net.Error` of the chain decides.
abbrev pub as_net_timeout : Error → Bool
as_net_timeout (wrap s e) = as_net_timeout e
as_net_timeout (wrap_step i p e) = as_net_timeout e
as_net_timeout e = is_net_timeout e

-- A timeout of the connection becomes `context.DeadlineExceeded`.
abbrev pub to_deadline : Error → Error
to_deadline e = if is_net_timeout e then deadline_exceeded else e
