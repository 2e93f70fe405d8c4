-- ===== src/Transport/Kernel/Session/Closing.antt =====
-- Closing is idempotent: the kernel sees one close.
use proto_test.Base.{
  ℕ, ◌+◌, ◌≤◌, ◌≡◌, true, List, [], ◌∷◌, ◌++◌, length, if◌then◌else◌, arith, length-append,
}
use proto_test.Transport.Kernel.FdConn.{close}
use proto_test.Transport.Kernel.Session.{Session, session_close}

-- A call of `Close` on the session, or on the socket below it.
pub data Target : Type 0 where
  whole socket : Target

close_one : Target → Session → Session × List ℕ
close_one whole s = session_close s
close_one socket s = let r = close s.base in (record s { base = r.0 }, r.1)

-- The descriptors handed to `unix.Close` by a sequence of such calls, in any order.
pub close_calls : List Target → Session → List ℕ
close_calls [] s = []
close_calls (t ∷ ts) s = let r = close_one t s in r.1 ++ close_calls ts r.0

-- One close is left to make.
abbrev budget : Session → ℕ
budget s = if s.base.closed then 0 else 1

close_one-budget :
    (t : Target) (s : Session) → length (close_one t s).1 + budget (close_one t s).0 ≡ budget s
unfolding close_one session_close close
close_one-budget whole s = ground arith
close_one-budget socket s = ground arith

calls-le-budget : (ts : List Target) (s : Session) → length (close_calls ts s) ≤ budget s
unfolding close_calls
calls-le-budget [] s = omega arith
calls-le-budget (t ∷ ts) s = omega (
  arith,
  length-append (close_one t s).1 (close_calls ts (close_one t s).0),
  close_one-budget t s,
  calls-le-budget ts (close_one t s).0,
)

-- However often and in whatever order a session and the socket below it are closed, `unix.Close` is
-- called at most once, and never for a socket that was closed before.
pub close_calls-once :
    (ts : List Target) (s : Session)
    → (length (close_calls ts s) ≤ 1) × (s.base.closed ≡ true → close_calls ts s ≡ [])
close_calls-once ts s =
    (ground (arith, calls-le-budget ts s), λ h. ground (arith, calls-le-budget ts s))
