-- ===== src/Transport/Kernel/Fds.antt =====
-- Calls that open and close file descriptors: a result with the log of what was opened and closed.
pub mod Owned
use Prim.Native.String.{String}
use proto_test.Base.{
  ℕ, List, [], ◌∷◌, ◌++◌, Option, none, some, ◌==◌, if◌then◌else◌, ℤ, Error, wrap, Result, ok, err,
}
use proto_test.Transport.Kernel.FdConn.{Loop, returned, raised, pending}

pub data FdEvent : Type 0 where
  opened closed : ℕ → FdEvent
  -- `SetsockoptInt`, whose result the code ignores: descriptor, option and value.
  option_set : ℕ → ℕ → ℤ → FdEvent

-- What a call comes to: a value, an error, or an endless wait.
pub data Reply (A : Type 0) : Type 0 where
  done : A → Reply A
  failed : Error → Reply A
  waits : Reply A

abbrev pub M : Type 0 → Type 0
M A = Reply A × List FdEvent

abbrev pub ◌>>=◌ : {B A : Type 0} → M A → (A → M B) → M B
(failed error, log) >>= next = (failed error, log)
(waits, log) >>= next = (waits, log)
(done value, log) >>= next = let r = next value in (r.0, log ++ r.1)

infixl 5 ◌>>=◌
-- A step without a value.
abbrev pub ◌>>◌ : {A : Type 0} → M (Unit {0}) → M A → M A
step >> next = step >>= λ u. next

infixl 5 ◌>>◌
abbrev pub pure : {A : Type 0} → A → M A
pure a = (done a, [])

abbrev pub fail : {A : Type 0} → Error → M A
fail e = (failed e, [])

-- A call that touches no descriptor.
abbrev pub lift : {A : Type 0} → Result A → M A
lift (ok a) = pure a
lift (err e) = fail e

abbrev pub context {ℓ} : {A : Type ℓ} → String → Result A → Result A
context s (ok a) = ok a
context s (err e) = err (wrap s e)

-- `unix.Socket` and `unix.Accept`: a descriptor that is now open, or an error.
abbrev pub acquire : Result ℕ → M ℕ
acquire (ok fd) = (done fd, opened fd ∷ [])
acquire (err e) = fail e

-- `if err != nil { _ = unix.Close(fd); return nil, err }`
abbrev pub or_close : {A : Type 0} → ℕ → Result A → M A
or_close fd (ok a) = pure a
or_close fd (err e) = (failed e, closed fd ∷ [])

-- The same for a loop that may wait for ever.
abbrev pub loop_or_close : {R A : Type 0} → ℕ → Loop R A → M A
loop_or_close fd (returned a rs) = pure a
loop_or_close fd (raised e rs) = (failed e, closed fd ∷ [])
loop_or_close fd pending = (waits, [])

-- The descriptors that are open after a log, from those open before it. A close of one that is not
-- open is a fault.
abbrev pub remove : ℕ → List ℕ → Option (List ℕ)
remove fd [] = none
remove fd (x ∷ xs) =
    if x == fd then some xs else elim (remove fd xs) [ none ↦ none | some ys ↦ some (x ∷ ys) ]

abbrev pub replay : List ℕ → List FdEvent → Option (List ℕ)
replay fds [] = some fds
replay fds (opened fd ∷ l) = replay (fd ∷ fds) l
replay fds (option_set fd o v ∷ l) = replay fds l
replay fds (closed fd ∷ l) = elim (remove fd fds) [ none ↦ none | some rest ↦ replay rest l ]
