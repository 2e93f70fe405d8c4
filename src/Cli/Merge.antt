-- ===== src/Cli/Merge.antt =====
-- What the flags make of a configuration file when none of them is given.
use Prim.Native.String.{String}
use proto_test.Base.{◌≡◌, ◌≢◌, ◌⊎◌, refl, List, ℤ, pos, negsuc, arith, false, Result, ok}
use proto_test.Transport
use proto_test.Config
use proto_test.Cli.{
  amf_defaults, amf_config, gnb_defaults, gnb_transport, gnb_run, timeout_or_5s, base_config,
  run_amf, run_gnb,
}

-- The settings that `runGNB` does not take from the file, with this connect timeout.
abbrev pub gnb_loses : ℤ → Config.Config → Transport.Config × Config.RunConfig
gnb_loses timeout cfg = (
  record cfg.transport { local_port = pos 0; connect_timeout = timeout },
  record cfg.run { nas_path = ""; nas_hex = false; channel_count = cfg.transport.channel_count },
)

-- The timeout t where it is not 0, and five seconds in place of 0.
abbrev pub IsTimeout : ℤ → ℤ → Type 0
IsTimeout t used = ((t ≡ pos 0) × (used ≡ pos 5_000_000_000)) ⊎ ((t ≢ pos 0) × (used ≡ t))

timeout_or_5s-IsTimeout : (t : ℤ) → IsTimeout t (timeout_or_5s t)
timeout_or_5s-IsTimeout (pos n) = ground arith
timeout_or_5s-IsTimeout (negsuc n) = ground arith

-- With no flag given, `amf` uses the transport settings of its configuration as they are; `gnb` uses
-- its configuration but for a local port of 0, no NAS template and the transport's number of
-- channels, which replace what the file says, and a connect timeout of 5 s in place of 0.
pub no_flags :
    (load : String → Result Config.Config) (args : List String) (cfg : Config.Config)
    → base_config load args ≡ ok cfg
    → (run_amf load (λ given f. f) args ≡ ok cfg.transport)
      × ((timeout : ℤ) × IsTimeout cfg.transport.connect_timeout timeout
          × (run_gnb load (λ given f. f) args ≡ ok (gnb_loses timeout cfg)))
unfolding run_amf run_gnb amf_defaults amf_config gnb_defaults gnb_transport gnb_run
no_flags load args cfg h = (
  rw h refl,
  (
    timeout_or_5s cfg.transport.connect_timeout,
    timeout_or_5s-IsTimeout cfg.transport.connect_timeout,
    rw h refl,
  ),
)
