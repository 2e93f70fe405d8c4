-- ===== src/Transport/Kernel/FdConn.antt =====
-- `fdConn` of the kernel transport: a non-blocking socket as a `net.Conn`.
-- The kernel's answers to `poll`, `read` and `write` and the clock are lists of answers.
pub mod Deadline
pub mod Wait
use Prim.Native.Nat.{bit_and}
use proto_test.Base.{
  ℕ, zero, suc, ◌/◌, Bool, true, false, not, ◌||◌, List, [], ◌∷◌, Option, none, some, length, ◌==◌,
  leb, if◌then◌else◌, ℤ, pos, negsuc, pos_part, is_pos, ◌-ℤ◌, saturate, Error, eof, net_timeout,
  message, errno, eintr, eagain, take, drop,
}

-- A `time.Time` in nanoseconds; `none` is the zero time.
abbrev pub Time : Type 0
Time = Option ℤ

pub record FdConn : Type 0 where
  pub fd : ℕ
  pub closed : Bool
  pub read_dl : Time
  pub write_dl : Time

unfoldable pub new_fd_conn : ℕ → FdConn
new_fd_conn fd = record { fd = fd; closed = false; read_dl = none; write_dl = none }

unfoldable pub set_deadline : Time → FdConn → FdConn
set_deadline t c = record c { read_dl = t; write_dl = t }

unfoldable pub set_read_deadline : Time → FdConn → FdConn
set_read_deadline t c = record c { read_dl = t }

unfoldable pub set_write_deadline : Time → FdConn → FdConn
set_write_deadline t c = record c { write_dl = t }

-- `Close`: the state after it, and the descriptors that it hands to `unix.Close`.
unfoldable pub close : FdConn → FdConn × List ℕ
close c = if c.closed then (c, []) else (record c { closed = true }, c.fd ∷ [])

-- A duration of d nanoseconds in the milliseconds of `poll`.
unfoldable pub poll_ms : ℤ → ℤ
poll_ms d =
    if is_pos d
    then (if leb (pos_part d / 1000000) 0 then pos 1 else pos (pos_part d / 1000000))
    else pos 0

-- `deadlineTimeout`, at the time `now`: -1 waits without a limit.
unfoldable pub deadline_timeout : FdConn → Bool → ℤ → ℤ
unfolding poll_ms
deadline_timeout c is_read now = elim (if is_read then c.read_dl else c.write_dl) [
  | none ↦ negsuc 0
  | some dl ↦ poll_ms (saturate (dl -ℤ now))
]

-- `unix.Poll` on one descriptor: an error number, or how many are ready with `Revents`.
pub data Poll : Type 0 where
  poll_error : ℕ → Poll
  polled : ℕ → ℕ → Poll

-- One round of a polling loop: the clock, and the kernel's answer to a timeout.
pub record Round : Type 0 where
  pub now : ℤ
  pub answer : ℤ → Poll

abbrev pub pollin : ℕ
pollin = 1

abbrev pub pollout : ℕ
pollout = 4

-- POLLERR | POLLHUP | POLLNVAL
abbrev pub poll_failure : ℕ
poll_failure = 0x38

-- What one answer of `poll` means to the loop of `wait`.
pub data Verdict : Type 0 where
  again usable : Verdict
  give_up : Error → Verdict

unfoldable pub judge : ℕ → Poll → Verdict
judge events (poll_error e) = if e == eintr then again else give_up (errno e)
judge events (polled n re) =
    if n == 0
    then give_up net_timeout
    else if not (bit_and re poll_failure == 0)
    then give_up (message "poll error")
    else if not (bit_and re events == 0)
    then usable
    else again

-- The end of a loop over the kernel's answers of type R, with the answers left.
pub data Loop (R A : Type 0) : Type 0 where
  returned : A → List R → Loop R A
  raised : Error → List R → Loop R A
  pending : Loop R A

abbrev pub after : {R : Type 0} → Verdict → List R → Loop R (Unit {0}) → Loop R (Unit {0})
after again rs more = more
after usable rs more = returned tt rs
after (give_up e) rs more = raised e rs

-- `wait`
unfoldable pub wait : FdConn → ℕ → Bool → List Round → Loop Round (Unit {0})
wait c events is_read [] = pending
wait c events is_read (r ∷ rs) =
    let more = wait c events is_read rs in
    after (judge events (r.answer (deadline_timeout c is_read r.now))) rs more

-- `unix.Read`: an error number, or the bytes read, none at the end of the stream.
pub data ReadAnswer : Type 0 where
  read_error : ℕ → ReadAnswer
  got : List ℕ → ReadAnswer

-- `unix.Write`: an error number, or how many bytes were taken.
pub data WriteAnswer : Type 0 where
  write_error : ℕ → WriteAnswer
  put : ℕ → WriteAnswer

abbrev pub retries : ℕ → Bool
retries e = e == eintr || e == eagain

infixl 5 ◌>>=◌
abbrev pub ◌>>=◌ : {R A B : Type 0} → Loop R A → (A → List R → Loop R B) → Loop R B
returned a rs >>= f = f a rs
raised e rs >>= f = raised e rs
pending >>= f = pending

-- The code of `Read` behind `waitReadable`, on one answer of `unix.Read`; `continue` goes on.
unfoldable pub judge_read : ReadAnswer → Loop Round (List ℕ) → List Round → Loop Round (List ℕ)
judge_read (read_error e) continue rs = if retries e then continue else raised (errno e) rs
judge_read (got []) continue rs = raised eof rs
judge_read (got (b ∷ bs)) continue rs = returned (b ∷ bs) rs

-- `Read`
unfoldable pub fd_read : FdConn → List ReadAnswer → List Round → Loop Round (List ℕ)
unfolding judge_read
fd_read c [] rs = pending
fd_read c (a ∷ more) rs = wait c pollin true rs >>= λ _ rest.
    (let continue = fd_read c more rest in judge_read a continue rest)

unfoldable pub judge_write : WriteAnswer → Loop Round ℕ → List Round → Loop Round ℕ
judge_write (write_error e) continue rs = if retries e then continue else raised (errno e) rs
judge_write (put n) continue rs = returned n rs

-- `Write`
unfoldable pub fd_write : FdConn → List WriteAnswer → List Round → Loop Round ℕ
unfolding judge_write
fd_write c [] rs = pending
fd_write c (a ∷ more) rs = wait c pollout false rs >>= λ _ rest.
    (let continue = fd_write c more rest in judge_write a continue rest)
