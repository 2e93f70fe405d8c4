-- ===== src/Transport/Kernel/FdConn/Deadline.antt =====
-- How long `fdConn` lets `poll` wait.
use proto_test.Base.{
  ℕ, ◌+◌, ◌*◌, ◌^◌, ◌≤◌, ◌<◌, ◌≡◌, ◌⊎◌, refl, true, false, some, none, ℤ, pos, negsuc, pos_part,
  neg_part, ◌-ℤ◌, saturate, arith,
}
use proto_test.Transport.Kernel.FdConn.{
  FdConn, Time, poll_ms, deadline_timeout, set_read_deadline, set_write_deadline,
}

-- The time that is left of a deadline, in nanoseconds: 0 once it has passed.
abbrev pub left_of : ℤ → ℤ → ℕ
left_of dl now = pos_part (dl -ℤ now)

-- A limit for `poll`, in milliseconds, that fits a duration of d nanoseconds: none for one that is
-- over; else at least 1, at most 1 or the whole milliseconds of d, and less than 1 ms short of d.
pub record IsLimit (d : ℕ) (ms : ℤ) : Type 0 where
  pub not_negative : neg_part ms ≡ 0
  pub no_wait : d ≡ 0 → pos_part ms ≡ 0
  pub waits : 0 < d → 1 ≤ pos_part ms
  pub not_late : (pos_part ms ≤ 1) ⊎ (pos_part ms * 1000000 ≤ d)
  pub not_early : d < (pos_part ms + 1) * 1000000

poll_ms-IsLimit : (z : ℤ) → pos_part z < 2 ^ 63 → IsLimit (pos_part z) (poll_ms (saturate z))
unfolding poll_ms
poll_ms-IsLimit (pos n) h = ground arith
poll_ms-IsLimit (negsuc n) h = ground arith

-- A deadline less than 2^63 ns ahead, set for reads or for writes, gives `poll` a limit that fits the
-- time that is left: 0 once the deadline has passed, else at least 1 ms, at most 1 ms or the time
-- left, and less than 1 ms short of it. Without a deadline `poll` waits without a limit. Whichever
-- deadline was there before is gone, and that of the other direction stays.
pub deadline_timeout-IsLimit :
    (c : FdConn) (dl now : ℤ) (t : Time)
    → left_of dl now < 2 ^ 63
    → IsLimit (left_of dl now) (deadline_timeout (set_read_deadline (some dl) c) true now)
      × IsLimit (left_of dl now) (deadline_timeout (set_write_deadline (some dl) c) false now)
      × (deadline_timeout (set_read_deadline none c) true now ≡ negsuc 0)
      × (deadline_timeout (set_write_deadline none c) false now ≡ negsuc 0)
      × (deadline_timeout (set_read_deadline t c) false now ≡ deadline_timeout c false now)
      × (deadline_timeout (set_write_deadline t c) true now ≡ deadline_timeout c true now)
unfolding deadline_timeout set_read_deadline set_write_deadline
deadline_timeout-IsLimit c dl now t small =
    (poll_ms-IsLimit (dl -ℤ now) small, poll_ms-IsLimit (dl -ℤ now) small, refl, refl, refl, refl)
