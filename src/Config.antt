-- ===== src/Config.antt =====
-- pkg/config/config.go: the configuration of a run, its defaults, and loading it from a file.
use Prim.Native.String.{String}
use text.Mathlib.Text.{◌==◌ as str_eq}
use proto_test.Base.{ℕ, ◌*◌, Bool, true, false, List, if◌then◌else◌, ℤ, pos, Result, ok, err, wrap}
use proto_test.Transport
use proto_test.Transport.{type_sctp}

pub record RunConfig : Type 0 where
  pub mode : String
  pub duration : ℤ  -- time.Duration, as the other durations
  pub warmup : ℤ
  pub step_duration : ℤ
  pub step_pps : ℤ
  pub step_count : ℤ
  pub base_pps : ℤ
  pub pps : ℤ
  pub workers : ℤ
  pub channel_count : ℤ
  pub output_csv : String
  pub nas_path : String
  pub nas_hex : Bool
  pub recv_timeout : ℤ
  pub connect_wait : ℤ
  pub step_start_pps : ℤ
  pub step_increment : ℤ
  pub latency_rate_limit : Bool

pub record Config : Type 0 where
  pub transport : Transport.Config
  pub run : RunConfig

-- n seconds, as a time.Duration.
abbrev pub seconds : ℕ → ℤ
seconds n = pos (n * 1_000_000_000)

abbrev pub default : Config
default = record {
  transport = record {
    type = type_sctp;
    local_ip = "127.0.0.1";
    local_port = pos 38412;
    remote_ip = "127.0.0.1";
    remote_port = pos 38412;
    channel_count = pos 1;
    nodelay = true;
    heartbeat_ms = pos 30000;
    read_buffer = pos 0;
    write_buffer = pos 0;
    connect_timeout = seconds 5;
    tls = false;
    alpn = "";
    cert_file = "";
    key_file = "";
    ca_file = "";
  };
  run = record {
    mode = "latency";
    duration = seconds 10;
    warmup = seconds 2;
    step_duration = seconds 5;
    step_pps = pos 1000;
    step_count = pos 5;
    base_pps = pos 1000;
    pps = pos 1000;
    workers = pos 1;
    channel_count = pos 1;
    output_csv = "summary.csv";
    nas_path = "";
    nas_hex = false;
    recv_timeout = seconds 1;
    connect_wait = seconds 5;
    step_start_pps = pos 1000;
    step_increment = pos 1000;
    latency_rate_limit = true;
  };
}

-- `os.ReadFile`, and `yaml.Unmarshal` of gopkg.in/yaml.v3 into a configuration that is already filled.
module _ (read_file : String → Result (List ℕ)) (unmarshal : List ℕ → Config → Result Config) where
  unfoldable pub load : String → Result Config
  load path = if str_eq path "" then ok default else elim (read_file path) [
    | err e ↦ err (wrap "read config: %w" e)
    | ok raw ↦ elim (unmarshal raw default) [
      | err e ↦ err (wrap "parse config: %w" e)
      | ok cfg ↦ ok cfg
    ]
  ]
