-- ===== src/Transport.antt =====
-- pkg/transport/transport.go: the configuration of a transport; and, below, the transports.
pub mod Stream
pub mod Tls
pub mod Kernel
pub mod Quic
pub mod Sctp
pub mod Queue
pub mod Backend
use Prim.Native.String.{String}
use Prim.Native.Char.{Char, code}
use text.Mathlib.Text.{◌==◌ as str_eq}
use proto_test.Base.{ℕ, Bool, true, false, not, ◌&&◌, ◌||◌, ltb, leb, ◌==◌, if◌then◌else◌, ℤ, IsI64}

abbrev pub type_sctp : String
type_sctp = "sctp"

abbrev pub type_sctp_kernel : String
type_sctp_kernel = "sctp-kernel"

abbrev pub type_quic : String
type_quic = "quic"

pub record Config : Type 0 where
  pub type : String
  pub local_ip : String
  pub local_port : ℤ
  pub remote_ip : String
  pub remote_port : ℤ
  pub channel_count : ℤ
  pub nodelay : Bool
  pub heartbeat_ms : ℤ
  pub read_buffer : ℤ
  pub write_buffer : ℤ
  pub connect_timeout : ℤ  -- time.Duration
  pub tls : Bool
  pub alpn : String
  pub cert_file : String
  pub key_file : String
  pub ca_file : String
