-- ===== src/Transport/Kernel.antt =====
-- pkg/transport/sctpkernel/sctpkernel_linux.go: SCTP over the sockets of the Linux kernel.
pub mod Channel
pub mod FdConn
pub mod Fds
pub mod Sockets
pub mod Session
