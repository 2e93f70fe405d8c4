-- ===== src/Cli.antt =====
-- cmd/mock5g/main.go: the command line over the configuration file.
-- `Parse` of the flag package is a parameter: a function from the flags' defaults to their values.
pub mod Path
pub mod Merge
pub mod Program
use Prim.Native.String.{String}
use Prim.Native.Char.{Char, code}
use text.Mathlib.Text.{◌==◌ as str_eq}
use proto_test.Base.{
  ℕ, ◌*◌, Bool, true, false, not, ◌&&◌, List, [], ◌∷◌, Option, none, some, ◌==◌, if◌then◌else◌, ℤ,
  pos, is_zero, Result, ok, err, ◌>>=◌,
}
use proto_test.Transport
use proto_test.Config

-- The text behind a prefix.
unfoldable pub after_prefix : String → String → Option String
after_prefix String.[] s = some s
after_prefix (String.◌∷◌ c p) String.[] = none
after_prefix (String.◌∷◌ c p) (String.◌∷◌ d s) =
    let rest = after_prefix p s in if code c == code d then rest else none

-- `--config=PATH`, with a path that is not empty; otherwise what the later arguments give.
unfoldable pub inline_path : String → String → String
unfolding after_prefix
inline_path arg later = elim (after_prefix "--config=" arg) [
  | none ↦ later
  | some path ↦ if str_eq path "" then later else path
]

unfoldable pub config_path_from_args : List String → String
unfolding inline_path
config_path_from_args [] = ""
config_path_from_args (arg ∷ []) = inline_path arg ""
config_path_from_args (arg ∷ (next ∷ rest)) =
    let later = config_path_from_args (next ∷ rest) in
    if str_eq arg "--config" then next else inline_path arg later

-- The flags of `runAMF`.
pub record AmfFlags : Type 0 where
  pub transport : String
  pub listen_ip : String
  pub listen_port : ℤ
  pub channels : ℤ
  pub nodelay : Bool
  pub heartbeat_ms : ℤ
  pub tls : Bool
  pub alpn : String
  pub cert_file : String
  pub key_file : String
  pub ca_file : String

unfoldable pub amf_defaults : Config.Config → AmfFlags
amf_defaults cfg = record {
  transport = cfg.transport.type;
  listen_ip = cfg.transport.local_ip;
  listen_port = cfg.transport.local_port;
  channels = cfg.transport.channel_count;
  nodelay = cfg.transport.nodelay;
  heartbeat_ms = cfg.transport.heartbeat_ms;
  tls = cfg.transport.tls;
  alpn = cfg.transport.alpn;
  cert_file = cfg.transport.cert_file;
  key_file = cfg.transport.key_file;
  ca_file = cfg.transport.ca_file;
}

unfoldable pub amf_config : Config.Config → AmfFlags → Transport.Config
amf_config cfg f = record cfg.transport {
  type = f.transport;
  local_ip = f.listen_ip;
  local_port = f.listen_port;
  channel_count = f.channels;
  nodelay = f.nodelay;
  heartbeat_ms = f.heartbeat_ms;
  tls = f.tls;
  alpn = f.alpn;
  cert_file = f.cert_file;
  key_file = f.key_file;
  ca_file = f.ca_file;
}

-- The flags of `runGNB`.
pub record GnbFlags : Type 0 where
  pub mode : String
  pub transport : String
  pub remote_ip : String
  pub remote_port : ℤ
  pub local_ip : String
  pub local_port : ℤ
  pub workers : ℤ
  pub channels : ℤ
  pub pps : ℤ
  pub duration : ℤ
  pub step_count : ℤ
  pub step_start_pps : ℤ
  pub step_increment : ℤ
  pub step_duration : ℤ
  pub out_csv : String
  pub nas_template : String
  pub nas_hex : Bool
  pub recv_timeout : ℤ
  pub latency_rate_limit : Bool
  pub nodelay : Bool
  pub heartbeat_ms : ℤ
  pub tls : Bool
  pub alpn : String
  pub cert_file : String
  pub key_file : String
  pub ca_file : String

unfoldable pub gnb_defaults : Config.Config → GnbFlags
gnb_defaults cfg = record {
  mode = cfg.run.mode;
  transport = cfg.transport.type;
  remote_ip = cfg.transport.remote_ip;
  remote_port = cfg.transport.remote_port;
  local_ip = cfg.transport.local_ip;
  local_port = pos 0;
  workers = cfg.run.workers;
  channels = cfg.transport.channel_count;
  pps = cfg.run.pps;
  duration = cfg.run.duration;
  step_count = cfg.run.step_count;
  step_start_pps = cfg.run.step_start_pps;
  step_increment = cfg.run.step_increment;
  step_duration = cfg.run.step_duration;
  out_csv = cfg.run.output_csv;
  nas_template = "";
  nas_hex = false;
  recv_timeout = cfg.run.recv_timeout;
  latency_rate_limit = cfg.run.latency_rate_limit;
  nodelay = cfg.transport.nodelay;
  heartbeat_ms = cfg.transport.heartbeat_ms;
  tls = cfg.transport.tls;
  alpn = cfg.transport.alpn;
  cert_file = cfg.transport.cert_file;
  key_file = cfg.transport.key_file;
  ca_file = cfg.transport.ca_file;
}

-- A connect timeout of 0 becomes 5 seconds.
abbrev pub timeout_or_5s : ℤ → ℤ
timeout_or_5s t = if is_zero t then pos 5_000_000_000 else t

unfoldable pub gnb_transport : Config.Config → GnbFlags → Transport.Config
gnb_transport cfg f = record cfg.transport {
  type = f.transport;
  remote_ip = f.remote_ip;
  remote_port = f.remote_port;
  local_ip = f.local_ip;
  local_port = f.local_port;
  channel_count = f.channels;
  nodelay = f.nodelay;
  heartbeat_ms = f.heartbeat_ms;
  tls = f.tls;
  alpn = f.alpn;
  cert_file = f.cert_file;
  key_file = f.key_file;
  ca_file = f.ca_file;
  connect_timeout = timeout_or_5s cfg.transport.connect_timeout;
}

unfoldable pub gnb_run : Config.Config → GnbFlags → Config.RunConfig
gnb_run cfg f = record cfg.run {
  mode = f.mode;
  workers = f.workers;
  pps = f.pps;
  duration = f.duration;
  step_count = f.step_count;
  step_start_pps = f.step_start_pps;
  step_increment = f.step_increment;
  step_duration = f.step_duration;
  output_csv = f.out_csv;
  nas_path = f.nas_template;
  nas_hex = f.nas_hex;
  recv_timeout = f.recv_timeout;
  latency_rate_limit = f.latency_rate_limit;
  channel_count = f.channels;
}

-- The configuration that a command starts from; `load` is `config.Load`.
unfoldable pub base_config : (String → Result Config.Config) → List String → Result Config.Config
unfolding config_path_from_args
base_config load args =
    if not (str_eq (config_path_from_args args) "")
    then load (config_path_from_args args)
    else ok Config.default

-- The configuration with which `runAMF` starts the server.
unfoldable pub run_amf :
    (String → Result Config.Config)
    → (List String → AmfFlags → AmfFlags)
    → List String
    → Result Transport.Config
unfolding base_config amf_defaults amf_config
run_amf load parse args =
    base_config load args >>= λ cfg. ok (amf_config cfg (parse args (amf_defaults cfg)))

-- The configurations with which `runGNB` starts the client.
unfoldable pub run_gnb :
    (String → Result Config.Config)
    → (List String → GnbFlags → GnbFlags)
    → List String
    → Result (Transport.Config × Config.RunConfig)
unfolding base_config gnb_defaults gnb_transport gnb_run
run_gnb load parse args = base_config load args >>= λ cfg.
    (let f = parse args (gnb_defaults cfg) in ok (gnb_transport cfg f, gnb_run cfg f))
