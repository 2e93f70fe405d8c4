-- ===== src/Tests/Tls.antt =====
-- The TLS configurations, over cryptographic libraries that are answers of one kind.
use Prim.Native.String.{String}
use proto_test.Base.{ℕ, ◌≡◌, ◌⊎◌, inr, refl, List, [], ◌∷◌, some, false, is_blank, pos, ok}
use proto_test.Transport
use proto_test.Config.{default}
use proto_test.Transport.Tls.{
  Crypto, TlsConfig, version_tls13, quic_client_tls_config, sctp_client_tls_config,
  kernel_client_tls_config, sctp_server_tls_config, kernel_server_tls_config,
  quic_server_tls_config, default_alpn, client_roots,
}
use proto_test.Transport.Tls.Laws.{tls_configs_agree, client_verifies, IsVerified}

-- Keys, certificates and pools without content.
abbrev pub toy_crypto : Crypto
toy_crypto = record {
  Key = ℕ;
  Serial = ℕ;
  Ip = String;
  Der = ℕ;
  Cert = String;
  Pool = List ℕ;
  now = pos 0;
  generate_key = ok 1;
  random_serial = ok 2;
  parse_ip = λ s. some s;
  create_certificate = λ t k. ok 3;
  x509_key_pair = λ d k. ok "self-signed";
  load_key_pair = λ cert key. ok cert;
  read_file = λ path. ok (1 ∷ []);
  append_certs = λ pem. some pem;
}

abbrev with_files : Transport.Config
with_files = record default.transport {
  cert_file = "cert.pem";
  key_file = "key.pem";
  ca_file = "ca.pem";
}

tls_configs_agree_example :
    (sctp_client_tls_config toy_crypto with_files ≡ quic_client_tls_config toy_crypto with_files)
    × (kernel_client_tls_config toy_crypto with_files
        ≡ quic_client_tls_config toy_crypto with_files)
    × ((with_files.cert_file ≡ "")
        ⊎ ((sctp_server_tls_config toy_crypto with_files
              ≡ quic_server_tls_config toy_crypto with_files)
            × (kernel_server_tls_config toy_crypto with_files
                ≡ quic_server_tls_config toy_crypto with_files)))
tls_configs_agree_example = tls_configs_agree toy_crypto with_files

abbrev verifying : TlsConfig String (List ℕ)
verifying = record {
  min_version = version_tls13;
  certificates = [];
  server_name = "127.0.0.1";
  next_protos = "mock5g-v1" ∷ [];
  insecure_skip_verify = false;
  root_cas = some (1 ∷ []);
}

client_with_files : quic_client_tls_config toy_crypto with_files ≡ ok verifying
unfolding quic_client_tls_config client_roots default_alpn is_blank
client_with_files = refl

client_verifies_example :
    (version_tls13 ≡ version_tls13)
    × ("mock5g-v1" ∷ [] ≡ default_alpn with_files ∷ [])
    × ("127.0.0.1" ≡ with_files.remote_ip)
    × IsVerified toy_crypto with_files verifying
client_verifies_example =
    client_verifies toy_crypto with_files verifying (inr (inr client_with_files))
