-- ===== src/Transport/Tls/Laws.antt =====
-- The transports use the same TLS settings, and verify the server unless there is no CA file.
use Prim.Native.String.{String}
use text.Mathlib.Text.{◌==◌ as str_eq}
use text.Mathlib.TextEquality.{eq_iff}
use proto_test.Base.{
  ℕ, err, message, Option-cases, some, ◌≡◌, ◌≢◌, ◌⊎◌, refl, sym, subst, ◌∙◌, ap, ap₂, inl, inr,
  true, false, List, [], ◌∷◌, none, Bool-cases, is_blank, Result, ok, ◌>>=◌, arith,
}
use proto_test.Transport.{Config}
use proto_test.Transport.Tls.{
  context, client_config, Crypto, TlsConfig, version_tls13, default_alpn, protos_unless_blank,
  server_cert, server_config, client_roots, sctp_self_signed_cert, kernel_self_signed_cert,
  quic_self_signed_cert, sctp_server_tls_config, sctp_client_tls_config, kernel_server_tls_config,
  kernel_client_tls_config, quic_server_tls_config, quic_client_tls_config,
}

default_alpn-not_blank : (cfg : Config) → is_blank (default_alpn cfg) ≡ false
unfolding default_alpn
default_alpn-not_blank cfg = elim (Bool-cases (is_blank cfg.alpn)) [
  | inl blank ↦ rw blank (unfold is_blank in refl)
  | inr other ↦ rw other other
]

module _ (lib : Crypto) where
  open lib use {Cert, Pool}

  protos-default :
      (cfg : Config) → protos_unless_blank lib (default_alpn cfg) ≡ default_alpn cfg ∷ []
  protos-default cfg = rw (default_alpn-not_blank cfg)

  server_cert_files :
      (cfg : Config) (a b : String → Result Cert)
      → str_eq cfg.cert_file "" ≡ false
      → server_cert lib a cfg ≡ server_cert lib b cfg
  unfolding server_cert
  server_cert_files cfg a b h = rw h

  abbrev server : List String → Result Cert → Result (TlsConfig Cert Pool)
  server protos r = r >>= λ cert. ok (server_config lib protos cert)

  -- The three transports negotiate alike: a client's TLS configuration is the same for SCTP, for
  -- kernel SCTP and for QUIC, on every configuration and error included; and so is a server's,
  -- unless no certificate file is configured.
  pub tls_configs_agree :
      (cfg : Config)
      → (sctp_client_tls_config lib cfg ≡ quic_client_tls_config lib cfg)
        × (kernel_client_tls_config lib cfg ≡ quic_client_tls_config lib cfg)
        × ((cfg.cert_file ≡ "")
            ⊎ ((sctp_server_tls_config lib cfg ≡ quic_server_tls_config lib cfg)
                × (kernel_server_tls_config lib cfg ≡ quic_server_tls_config lib cfg)))
  unfolding sctp_client_tls_config kernel_client_tls_config quic_client_tls_config
      sctp_server_tls_config kernel_server_tls_config quic_server_tls_config
  tls_configs_agree cfg = (
    ap (λ ps. client_roots lib ps cfg) (protos-default cfg),
    ap (λ ps. client_roots lib ps cfg) (protos-default cfg),
    elim (Bool-cases (str_eq cfg.cert_file "")) [
      | inl none' ↦ inl ((eq_iff cfg.cert_file "").0 none')
      | inr h ↦ inr (
        ap₂ server (protos-default cfg)
            (server_cert_files cfg (sctp_self_signed_cert lib) (quic_self_signed_cert lib) h),
        ap₂ server (protos-default cfg)
            (server_cert_files cfg (kernel_self_signed_cert lib) (quic_self_signed_cert lib) h),
      )
    ],
  )

  -- No verification without a CA file, or verification against the roots that are read from it.
  abbrev pub IsVerified : Config → TlsConfig Cert Pool → Type 0
  IsVerified cfg c =
      ((cfg.ca_file ≡ "") × (c.insecure_skip_verify ≡ true) × (c.root_cas ≡ none))
      ⊎ ((cfg.ca_file ≢ "")
          × (c.insecure_skip_verify ≡ false)
          × ((pem : List ℕ) × (roots : Pool) × (lib.read_file cfg.ca_file ≡ ok pem)
              × (lib.append_certs pem ≡ some roots)
              × (c.root_cas ≡ some roots)))

  -- The roots that are read from a file.
  abbrev with_roots : List String → String → Result (List ℕ) → Result (TlsConfig Cert Pool)
  with_roots protos name r = r >>= λ ca_pem. elim (lib.append_certs ca_pem) [
    | none ↦ err (message "append CA cert failed")
    | some roots ↦ ok (client_config lib protos name false (some roots))
  ]

  roots_read :
      (protos : List String) (name : String) (r : Result (List ℕ)) (c : TlsConfig Cert Pool)
      → with_roots protos name (context "read ca file: %w" r) ≡ ok c
      → (pem : List ℕ) × (roots : Pool) × (r ≡ ok pem)
        × (lib.append_certs pem ≡ some roots)
        × (client_config lib protos name false (some roots) ≡ c)
  roots_read protos name (err e) c h = absurd (cc h)
  roots_read protos name (ok pem) c h = elim (Option-cases (lib.append_certs pem)) [
    | inl e ↦ absurd (let h' = rw e at h in cc h')
    | inr (roots, e) ↦ (pem, roots, refl, e, (let h' = rw e at h in cc h'))
  ]

  quic_client_verifies :
      (cfg : Config) (c : TlsConfig Cert Pool)
      → quic_client_tls_config lib cfg ≡ ok c
      → (c.min_version ≡ version_tls13)
        × (c.next_protos ≡ default_alpn cfg ∷ [])
        × (c.server_name ≡ cfg.remote_ip)
        × IsVerified cfg c
  unfolding quic_client_tls_config client_roots
  quic_client_verifies cfg c h = elim (Bool-cases (str_eq cfg.ca_file "")) [
    | inl none' ↦
        let h' : client_config lib (default_alpn cfg ∷ []) cfg.remote_ip true none ≡ c =
          (let e = rw none' at h in cc e) in
        subst
          (λ c.
            (c.min_version ≡ version_tls13)
            × (c.next_protos ≡ default_alpn cfg ∷ [])
            × (c.server_name ≡ cfg.remote_ip)
            × IsVerified cfg c)
          h' (refl, refl, refl, inl ((eq_iff cfg.ca_file "").0 none', refl, refl))
    | inr some' ↦
        let (pem, roots, r, a, e) =
          roots_read (default_alpn cfg ∷ []) cfg.remote_ip (lib.read_file cfg.ca_file) c
            (rw some' at h) in
        subst
          (λ c.
            (c.min_version ≡ version_tls13)
            × (c.next_protos ≡ default_alpn cfg ∷ [])
            × (c.server_name ≡ cfg.remote_ip)
            × IsVerified cfg c)
          e
          (
            refl,
            refl,
            refl,
            inr (λ same. ground (arith, eq_iff cfg.ca_file ""), refl, (pem, roots, r, a, refl)),
          )
  ]

  -- A client of any of the three transports that is configured uses TLS 1.3, offers exactly the one
  -- application protocol of the configuration or its default, and expects the name of the remote
  -- host. Where a CA file is named, it verifies the server, against exactly the roots that the
  -- certificates of this file make; where none is, it does not verify the server.
  pub client_verifies :
      (cfg : Config) (c : TlsConfig Cert Pool)
      → (sctp_client_tls_config lib cfg ≡ ok c)
        ⊎ ((kernel_client_tls_config lib cfg ≡ ok c) ⊎ (quic_client_tls_config lib cfg ≡ ok c))
      → (c.min_version ≡ version_tls13)
        × (c.next_protos ≡ default_alpn cfg ∷ [])
        × (c.server_name ≡ cfg.remote_ip)
        × IsVerified cfg c
  client_verifies cfg c (inl h) = quic_client_verifies cfg c (sym (tls_configs_agree cfg).0 ∙ h)
  client_verifies cfg c (inr (inl h)) =
      quic_client_verifies cfg c (sym (tls_configs_agree cfg).1 ∙ h)
  client_verifies cfg c (inr (inr h)) = quic_client_verifies cfg c h
