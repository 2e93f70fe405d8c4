-- ===== src/Transport/Kernel/Fds/Owned.antt =====
-- Code that holds one open descriptor: it still holds it when it succeeds, and has closed it, once,
-- when it fails.
use Prim.Native.String.{String}
use proto_test.Base.{
  ℕ, ◌≤◌, ◌≡◌, length, refl, ap, ◌∙◌, inl, inr, List, [], ◌∷◌, ◌++◌, some, Option-cases, arith,
  Result, ok, err,
}
use proto_test.Transport.Kernel.FdConn.{Loop, returned, raised, pending}
use proto_test.Transport.Kernel.Fds.{
  FdEvent, opened, closed, option_set, Reply, done, failed, waits, M, ◌>>=◌, acquire, lift, context,
  or_close, loop_or_close, remove, replay,
}

-- The descriptors that are open after a call: none only if it failed.
abbrev pub kept : {A : Type 0} → ℕ → Reply A → List ℕ
kept fd (done a) = fd ∷ []
kept fd (failed e) = []
kept fd waits = fd ∷ []

abbrev pub Owned : {A : Type 0} → ℕ → M A → Type 0
Owned fd m = replay (fd ∷ []) m.1 ≡ some (kept fd m.0)

-- The logs of two calls, one after the other.
pub replay-append :
    (fds : List ℕ) (l m : List FdEvent) {mid : List ℕ}
    → replay fds l ≡ some mid
    → replay fds (l ++ m) ≡ replay mid m
replay-append fds [] m {mid} h = let same : fds ≡ mid = cc in ap (λ xs. replay xs m) same
replay-append fds (opened fd ∷ l) m h = replay-append (fd ∷ fds) l m h
replay-append fds (option_set fd o v ∷ l) m h = replay-append fds l m h
replay-append fds (closed fd ∷ l) m h = elim (Option-cases (remove fd fds)) [
  | inl e ↦ cc (rw (e, replay) at h)
  | inr (rest, e) ↦ rw (e, replay) (replay-append rest l m (rw (e, replay) at h))
]

pub Owned-or_close : {A : Type 0} (fd : ℕ) (r : Result A) → Owned fd (or_close fd r)
Owned-or_close fd (ok a) = refl
Owned-or_close fd (err e) = ground arith

pub Owned-loop_or_close : {R A : Type 0} (fd : ℕ) (r : Loop R A) → Owned fd (loop_or_close fd r)
Owned-loop_or_close fd (returned a rs) = refl
Owned-loop_or_close fd (raised e rs) = ground arith
Owned-loop_or_close fd pending = refl

pub Owned->>= :
    {A B : Type 0} (fd : ℕ) (m : M A) (f : A → M B)
    → Owned fd m
    → ((a : A) → Owned fd (f a))
    → Owned fd (m >>= f)
Owned->>= fd (done a, l) f h k = replay-append (fd ∷ []) l (f a).1 h ∙ k a
Owned->>= fd (failed e, l) f h k = h
Owned->>= fd (waits, l) f h k = h

-- A call that starts with nothing open: what its log leaves open is the descriptor of its value,
-- nothing if it fails, and at most one descriptor if it waits.
abbrev pub Balanced : {A : Type 0} → (A → ℕ) → M A → Type 0
Balanced held (done a, l) = replay [] l ≡ some (held a ∷ [])
Balanced held (failed e, l) = replay [] l ≡ some []
Balanced held (waits, l) = (fds : List ℕ) × (replay [] l ≡ some fds) × (length fds ≤ 1)

pub Balanced-lift :
    {A B : Type 0} (held : B → ℕ) (r : Result A) (f : A → M B)
    → ((a : A) → Balanced held (f a))
    → Balanced held (lift r >>= f)
Balanced-lift held (ok a) f h = h a
Balanced-lift held (err e) f h = refl

-- The result holds the descriptor of its value.
abbrev pub Holds : {A : Type 0} → (A → ℕ) → ℕ → Reply A → Type 0
Holds held fd (done a) = held a ≡ fd
Holds held fd (failed e) = Unit {0}
Holds held fd waits = Unit {0}

opened-Balanced :
    {B : Type 0} (held : B → ℕ) (fd : ℕ) (m : M B)
    → Owned fd m
    → Holds held fd m.0
    → Balanced held (m.0, opened fd ∷ m.1)
opened-Balanced held fd (done a, l) o k = rw k o
opened-Balanced held fd (failed e, l) o k = o
opened-Balanced held fd (waits, l) o k = (fd ∷ [], o, omega arith)

pub Holds->>= :
    {A B : Type 0} (held : B → ℕ) (fd : ℕ) (m : M A) (f : A → M B)
    → ((a : A) → Holds held fd (f a).0)
    → Holds held fd (m >>= f).0
Holds->>= held fd (done a, l) f h = h a
Holds->>= held fd (failed e, l) f h = tt
Holds->>= held fd (waits, l) f h = tt

-- Code that holds the descriptor, and whose result does too.
abbrev pub Keeps : {A : Type 0} → (A → ℕ) → ℕ → M A → Type 0
Keeps held fd m = Owned fd m × Holds held fd m.0

pub Keeps->>= :
    {A B : Type 0} (held : B → ℕ) (fd : ℕ) (m : M A) (f : A → M B)
    → Owned fd m
    → ((a : A) → Keeps held fd (f a))
    → Keeps held fd (m >>= f)
Keeps->>= held fd m f h k =
    (Owned->>= fd m f h (λ a. (k a).0), Holds->>= held fd m f (λ a. (k a).1))

pub Balanced-acquire :
    {B : Type 0} (held : B → ℕ) (r : Result ℕ) (f : ℕ → M B)
    → ((fd : ℕ) → Keeps held fd (f fd))
    → Balanced held (acquire r >>= f)
Balanced-acquire held (ok fd) f h = opened-Balanced held fd (f fd) (h fd).0 (h fd).1
Balanced-acquire held (err e) f h = refl

-- A call that waits holds exactly the descriptor that this call returned.
abbrev pub WaitsWith : {A : Type 0} → Result ℕ → M A → Type 0
WaitsWith r (done a, l) = Unit {0}
WaitsWith r (failed e, l) = Unit {0}
WaitsWith r (waits, l) = (fd : ℕ) × (r ≡ ok fd) × (replay [] l ≡ some (fd ∷ []))

pub WaitsWith-lift :
    {A B : Type 0} (s : Result ℕ) (r : Result A) (f : A → M B)
    → ((a : A) → WaitsWith s (f a))
    → WaitsWith s (lift r >>= f)
WaitsWith-lift s (ok a) f h = h a
WaitsWith-lift s (err e) f h = tt

Owned-WaitsWith :
    {B : Type 0} (fd : ℕ) (m : M B) → Owned fd m → WaitsWith (ok fd) (m.0, opened fd ∷ m.1)
Owned-WaitsWith fd (done a, l) h = tt
Owned-WaitsWith fd (failed e, l) h = tt
Owned-WaitsWith fd (waits, l) h = (fd, refl, h)

pub WaitsWith-acquire :
    {B : Type 0} (text : String) (r : Result ℕ) (f : ℕ → M B)
    → ((fd : ℕ) → Owned fd (f fd))
    → WaitsWith r (acquire (context text r) >>= f)
WaitsWith-acquire text (ok fd) f h = Owned-WaitsWith fd (f fd) (h fd)
WaitsWith-acquire text (err e) f h = tt
