-- ===== src/Transport/Kernel/FdConn/Wait.antt =====
-- What `Read` returns over the kernel's answers, and which answers it never passes on.
use proto_test.Base.{
  ℕ, ◌≤◌, ◌≡◌, ◌≢◌, refl, inl, inr, Bool-cases, true, List, [], ◌∷◌, length, Error, errno, eintr,
  arith,
}
use proto_test.Transport.Kernel.FdConn.{
  FdConn, Round, Poll, polled, poll_error, pollin, deadline_timeout, Verdict, again, usable,
  give_up, judge, Loop, returned, raised, pending, wait, ReadAnswer, read_error, got, judge_read,
  retries, after, ◌>>=◌, fd_read,
}

-- The kernel's answer in one round.
abbrev pub answered : FdConn → Round → Poll
answered c r = r.answer (deadline_timeout c true r.now)

-- What a call of `Read` may end with: at least one byte, or an error that is not EINTR.
abbrev pub IsReadEnd : Loop Round (List ℕ) → Type 0
IsReadEnd (returned b rest) = 1 ≤ length b
IsReadEnd (raised e rest) = e ≢ errno eintr
IsReadEnd pending = Unit {0}

-- A call does not end with EINTR.
abbrev NoEintr : {A : Type 0} → Loop Round A → Type 0
NoEintr (returned a rest) = Unit {0}
NoEintr (raised e rest) = e ≢ errno eintr
NoEintr pending = Unit {0}

judge-NoEintr : (events : ℕ) (p : Poll) {e : Error} → judge events p ≡ give_up e → e ≢ errno eintr
unfolding judge
judge-NoEintr events (poll_error n) h = ground arith
judge-NoEintr events (polled n re) h = ground arith

after-NoEintr :
    (v : Verdict) (rs : List Round) (more : Loop Round (Unit {0}))
    → ((e : Error) → v ≡ give_up e → e ≢ errno eintr)
    → NoEintr more
    → NoEintr (after v rs more)
after-NoEintr again rs more h k = k
after-NoEintr usable rs more h k = tt
after-NoEintr (give_up e) rs more h k = h e refl

wait-NoEintr : (c : FdConn) (rs : List Round) → NoEintr (wait c pollin true rs)
unfolding wait
wait-NoEintr c [] = tt
wait-NoEintr c (r ∷ rs) =
    after-NoEintr (judge pollin (answered c r)) rs (wait c pollin true rs)
      (λ e. judge-NoEintr pollin (answered c r)) (wait-NoEintr c rs)

judge_read-IsReadEnd :
    (a : ReadAnswer) (continue : Loop Round (List ℕ)) (rs : List Round)
    → IsReadEnd continue
    → IsReadEnd (judge_read a continue rs)
unfolding judge_read
judge_read-IsReadEnd (read_error n) continue rs h = elim (Bool-cases (retries n)) [
  | inl yes' ↦ rw yes' h
  | inr no' ↦ rw no' (ground arith)
]
judge_read-IsReadEnd (got []) continue rs h = λ e. cc
judge_read-IsReadEnd (got (b ∷ bs)) continue rs h = omega arith

then-IsReadEnd :
    (w : Loop Round (Unit {0})) (f : List Round → Loop Round (List ℕ))
    → NoEintr w
    → ((rs : List Round) → IsReadEnd (f rs))
    → IsReadEnd (w >>= λ _. f)
then-IsReadEnd (returned _ rest) f h k = k rest
then-IsReadEnd (raised e rest) f h k = h
then-IsReadEnd pending f h k = tt

-- `Read` never returns without an error and without a byte, and never returns EINTR: so the loop of
-- `io.ReadFull` over it takes at least a byte or ends in every round.
pub fd_read-IsReadEnd :
    (c : FdConn) (answers : List ReadAnswer) (rs : List Round) → IsReadEnd (fd_read c answers rs)
unfolding fd_read
fd_read-IsReadEnd c [] rs = tt
fd_read-IsReadEnd c (a ∷ more) rs =
    then-IsReadEnd (wait c pollin true rs) _ (wait-NoEintr c rs)
      λ rest. judge_read-IsReadEnd a (fd_read c more rest) rest (fd_read-IsReadEnd c more rest)
