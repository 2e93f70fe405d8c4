-- ===== src/Transport/Tls.antt =====
-- The TLS configurations of the three transports, over the cryptographic libraries as parameters.
pub mod Laws
use Prim.Native.String.{String}
use text.Mathlib.Text.{◌==◌ as str_eq}
use proto_test.Base.{
  ℕ, Bool, true, false, not, ◌&&◌, ◌||◌, List, [], ◌∷◌, Option, none, some, if◌then◌else◌, ℤ, ◌+ℤ◌,
  ◌-ℤ◌, pos, is_blank, Error, message, wrap, Result, ok, err, ◌>>=◌,
}
use proto_test.Transport.{Config}

-- What `generateSelfSignedCert` puts into the certificate.
pub record Template (Serial Ip : Type 0) : Type 0 where
  pub serial_number : Serial
  pub common_name : String
  pub not_before : ℤ
  pub not_after : ℤ
  pub server_auth : Bool
  pub ip_addresses : List Ip
  pub dns_names : List String

-- crypto/rsa, crypto/rand, crypto/x509, encoding/pem, crypto/tls, net and os, as far as they are
-- called for a configuration.
pub record Crypto : Type 1 where
  pub Key : Type 0
  pub Serial : Type 0
  pub Ip : Type 0
  pub Der : Type 0
  pub Cert : Type 0
  pub Pool : Type 0
  pub now : ℤ
  pub generate_key : Result Key
  pub random_serial : Result Serial
  pub parse_ip : String → Option Ip
  pub create_certificate : Template Serial Ip → Key → Result Der
  pub x509_key_pair : Der → Key → Result Cert
  pub load_key_pair : String → String → Result Cert
  pub read_file : String → Result (List ℕ)
  pub append_certs : List ℕ → Option Pool

-- The fields of `tls.Config` that the program sets; `min_version` is the protocol's number.
pub record TlsConfig (Cert Pool : Type 0) : Type 0 where
  pub min_version : ℕ
  pub certificates : List Cert
  pub server_name : String
  pub next_protos : List String
  pub insecure_skip_verify : Bool
  pub root_cas : Option Pool

abbrev pub version_tls13 : ℕ
version_tls13 = 0x0304

-- An error with a text in front of it.
abbrev pub context {ℓ} : {A : Type ℓ} → String → Result A → Result A
context s (ok a) = ok a
context s (err e) = err (wrap s e)

unfoldable pub default_alpn : Config → String
default_alpn cfg = if not (is_blank cfg.alpn) then cfg.alpn else "mock5g-v1"

unfoldable pub pick_ip : String → String → String
pick_ip ip fallback = if is_blank ip then fallback else ip

abbrev pub one_hour : ℤ
one_hour = pos 3_600_000_000_000

abbrev pub one_year : ℤ
one_year = pos 31_536_000_000_000_000

module _ (lib : Crypto) where
  open lib use {
    Key, Serial, Ip, Der, Cert, Pool, now, generate_key, random_serial, parse_ip,
    create_certificate, x509_key_pair, load_key_pair, read_file, append_certs,
  }

  -- The SANs of the certificate: an address, or a name that is not empty.
  abbrev pub template_of : String → Serial → String → Template Serial Ip
  template_of common_name serial host = record {
    serial_number = serial;
    common_name = common_name;
    not_before = now -ℤ one_hour;
    not_after = now +ℤ one_year;
    server_auth = true;
    ip_addresses = elim (parse_ip host) [ some ip ↦ ip ∷ [] | none ↦ [] ];
    dns_names = elim (parse_ip host) [
      | some ip ↦ []
      | none ↦ if not (str_eq host "") then host ∷ [] else []
    ];
  }

  -- `generateSelfSignedCert`; the three packages differ in the common name.
  unfoldable pub generate_self_signed_cert : String → String → Result Cert
  generate_self_signed_cert common_name host = do
    priv ← context "generate rsa key: %w" generate_key
    serial ← context "generate serial: %w" random_serial
    der ← context "create cert: %w" (create_certificate (template_of common_name serial host) priv)
    context "x509 key pair: %w" (x509_key_pair der priv)

  -- `generateSelfSignedCert` of pkg/transport/sctp.
  unfoldable pub sctp_self_signed_cert : String → Result Cert
  unfolding generate_self_signed_cert
  sctp_self_signed_cert host = generate_self_signed_cert "mock5g-sctp-tls" host

  -- `generateSelfSignedCert` of pkg/transport/sctpkernel.
  unfoldable pub kernel_self_signed_cert : String → Result Cert
  unfolding generate_self_signed_cert
  kernel_self_signed_cert host = generate_self_signed_cert "mock5g-sctp-kernel" host

  -- `generateSelfSignedCert` of pkg/transport/quic.
  unfoldable pub quic_self_signed_cert : String → Result Cert
  unfolding generate_self_signed_cert
  quic_self_signed_cert host = generate_self_signed_cert "mock5g-quic" host

  -- The certificate of a server, the same code in the three packages but for their own
  -- `generateSelfSignedCert`.
  unfoldable pub server_cert : (String → Result Cert) → Config → Result Cert
  unfolding pick_ip
  server_cert self_signed cfg =
      if not (str_eq cfg.cert_file "") || not (str_eq cfg.key_file "")
      then (if str_eq cfg.cert_file "" || str_eq cfg.key_file ""
          then err (message "both cert_file and key_file are required")
          else context "load x509 key pair: %w" (load_key_pair cfg.cert_file cfg.key_file))
      else self_signed (pick_ip cfg.local_ip "127.0.0.1")

  -- `if strings.TrimSpace(alpn) != "" { tlsCfg.NextProtos = []string{alpn} }`
  abbrev pub protos_unless_blank : String → List String
  protos_unless_blank alpn = if not (is_blank alpn) then alpn ∷ [] else []

  abbrev pub server_config : List String → Cert → TlsConfig Cert Pool
  server_config protos cert = record {
    min_version = version_tls13;
    certificates = cert ∷ [];
    server_name = "";
    next_protos = protos;
    insecure_skip_verify = false;
    root_cas = none;
  }

  abbrev pub client_config : List String → String → Bool → Option Pool → TlsConfig Cert Pool
  client_config protos name skip roots = record {
    min_version = version_tls13;
    certificates = [];
    server_name = name;
    next_protos = protos;
    insecure_skip_verify = skip;
    root_cas = roots;
  }

  -- The roots of a client: none without a CA file, which turns the verification off.
  unfoldable pub client_roots : List String → Config → Result (TlsConfig Cert Pool)
  client_roots protos cfg =
      if str_eq cfg.ca_file ""
      then ok (client_config protos cfg.remote_ip true none)
      else (context "read ca file: %w" (read_file cfg.ca_file) >>= λ ca_pem.
          elim (append_certs ca_pem) [
            | none ↦ err (message "append CA cert failed")
            | some roots ↦ ok (client_config protos cfg.remote_ip false (some roots))
          ])

  unfoldable pub sctp_server_tls_config : Config → Result (TlsConfig Cert Pool)
  unfolding default_alpn server_cert sctp_self_signed_cert
  sctp_server_tls_config cfg = do
    cert ← server_cert sctp_self_signed_cert cfg
    ok (server_config (protos_unless_blank (default_alpn cfg)) cert)

  unfoldable pub sctp_client_tls_config : Config → Result (TlsConfig Cert Pool)
  unfolding default_alpn client_roots
  sctp_client_tls_config cfg = client_roots (protos_unless_blank (default_alpn cfg)) cfg

  unfoldable pub kernel_server_tls_config : Config → Result (TlsConfig Cert Pool)
  unfolding default_alpn server_cert kernel_self_signed_cert
  kernel_server_tls_config cfg = do
    cert ← server_cert kernel_self_signed_cert cfg
    ok (server_config (protos_unless_blank (default_alpn cfg)) cert)

  unfoldable pub kernel_client_tls_config : Config → Result (TlsConfig Cert Pool)
  unfolding default_alpn client_roots
  kernel_client_tls_config cfg = client_roots (protos_unless_blank (default_alpn cfg)) cfg

  unfoldable pub quic_server_tls_config : Config → Result (TlsConfig Cert Pool)
  unfolding default_alpn server_cert quic_self_signed_cert
  quic_server_tls_config cfg = do
    cert ← server_cert quic_self_signed_cert cfg
    ok (server_config (default_alpn cfg ∷ []) cert)

  unfoldable pub quic_client_tls_config : Config → Result (TlsConfig Cert Pool)
  unfolding default_alpn client_roots
  quic_client_tls_config cfg = client_roots (default_alpn cfg ∷ []) cfg
