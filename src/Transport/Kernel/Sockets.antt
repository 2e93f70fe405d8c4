-- ===== src/Transport/Kernel/Sockets.antt =====
-- `resolveSockAddr` and `pollFD` of the kernel transport.
use Prim.Native.String.{String}
use proto_test.Base.{
  ℕ, List, [], ◌∷◌, Option, none, some, ◌==◌, if◌then◌else◌, ℤ, Error, message_text, errno, eintr,
  Result, ok, err,
}
use proto_test.Transport.Kernel.FdConn.{
  Poll, judge, Verdict, again, usable, give_up, Loop, returned, raised, pending, poll_error, polled,
}

-- `unix.SockaddrInet4` and `unix.SockaddrInet6`.
pub data SockAddr : Type 0 where
  inet4 inet6 : ℤ → List ℕ → SockAddr

-- `net.ParseIP`, `To4` and `To16`.
pub record Net : Type 1 where
  pub Ip : Type 0
  pub parse_ip : String → Option Ip
  pub to4 : Ip → Option (List ℕ)
  pub to16 : Ip → List ℕ

abbrev pub af_inet : ℕ
af_inet = 2

abbrev pub af_inet6 : ℕ
af_inet6 = 10

unfoldable pub resolve_sock_addr : (net : Net) → String → ℤ → Result (ℕ × SockAddr)
resolve_sock_addr net ip_str port = elim (net.parse_ip ip_str) [
  | none ↦ err (message_text "invalid ip %q" ip_str)
  | some ip ↦ elim (net.to4 ip) [
    | some ip4 ↦ ok (af_inet, inet4 port ip4)
    | none ↦ ok (af_inet6, inet6 port (net.to16 ip))
  ]
]

-- One round of `pollFD`: the context's error, and the kernel's answer to a wait of 100 ms.
pub record CtxRound : Type 0 where
  pub ctx_err : Option Error
  pub answer : Poll

-- As `judge` of `fdConn.wait`, but that no ready descriptor means another round.
unfoldable pub judge_poll : ℕ → Poll → Verdict
judge_poll events (poll_error e) = if e == eintr then again else give_up (errno e)
judge_poll events (polled n re) = if n == 0 then again else judge events (polled n re)

abbrev pub after : Verdict → List CtxRound → Loop CtxRound (Unit {0}) → Loop CtxRound (Unit {0})
after again rs more = more
after usable rs more = returned tt rs
after (give_up e) rs more = raised e rs

-- `pollFD`
unfoldable pub poll_fd : ℕ → List CtxRound → Loop CtxRound (Unit {0})
unfolding judge_poll
poll_fd events [] = pending
poll_fd events (r ∷ rs) =
    let more = poll_fd events rs in
    elim r.ctx_err [ some e ↦ raised e rs | none ↦ after (judge_poll events r.answer) rs more ]
