-- ===== src/Sgx/Tls/Mutual.antt =====
-- Which peers the TLS server of a node admits.
use betterkey.Prelude.{
  ◌≡◌, refl, subst, ap, sym, ◌∙◌, true, false, List, [], ◌∷◌, ◌++◌, none, some, arith, All, Bytes,
  same, same_refl, str, length, take-length-append, length-append, ltb,
}
use betterkey.Common.Result.{ok, err, failed, >>=-eq-ok, ok-injective}
use betterkey.Common.Services.{or_error, or_error-eq-ok}
use betterkey.Sgx.Report.{
  Report, EnclaveConfig, Certificate, Enclave, oid_oe_new_quote, verify_report, hash_public_key,
  verify_quote_extension, verify_extensions, cert_verifier,
}
use betterkey.Sgx.Report.Trusted.{IsTrusted, cert_verifier-IsTrusted}
use betterkey.Sgx.Tls.{
  Template, EcdsaKey, Issuer, SgxTlsConfig, NodeTlsConfig, sgx_tls, Draws, new_cert_template,
  tls_of, new_node_tls_config, server_tls_config, client_tls_config, server_admits,
}

-- What is relied on of x509 and of the enclave that makes the reports `own`: a certificate is parsed
-- back, with extensions of its own before those that were added, and is signed by its own key; a report
-- starts with the data that it was made over.
pub record IsIssuer (e : Enclave) (i : Issuer) (own : Report) : Type 0 where
  pub standard : Template → List (Bytes × Bytes)
  pub no_quotes : (t : Template) → All (λ x. same x.0 oid_oe_new_quote ≡ false) (standard t)
  pub parse-create :
      (t : Template) (priv : EcdsaKey) (raw : Bytes)
      → i.create_certificate t priv ≡ some raw
      → e.parse_certificate raw
        ≡ some
            (record { public_key = priv.public_key; extensions = standard t ++ t.extra_extensions })
  pub self_signed :
      (t : Template) (priv : EcdsaKey) (raw : Bytes) (cert : Certificate)
      → i.create_certificate t priv ≡ some raw
      → e.parse_certificate raw ≡ some cert
      → e.verify_self_signed cert ≡ true
  pub padding : Bytes
  pub verify-get :
      (content quote : Bytes)
      → i.get_remote_report content ≡ some quote
      → e.verify_remote_report quote ≡ (record own { report_data = content ++ padding }, none)

module _ (e : Enclave) (c : EnclaveConfig) where
  skips_standard :
      (hash : Bytes) (before after : List (Bytes × Bytes))
      → All (λ x. same x.0 oid_oe_new_quote ≡ false) before
      → verify_extensions e c hash (before ++ after) ≡ verify_extensions e c hash after
  unfolding verify_extensions
  skips_standard hash [] after h = refl
  skips_standard hash ((id, value) ∷ before) after (no_quote, h) =
      rw no_quote (skips_standard hash before after h)

  bound_quote :
      (i : Issuer) (own : Report) (laws : IsIssuer e i own) (hash quote : Bytes)
      → i.get_remote_report hash ≡ some quote
      → verify_report own c ≡ ok tt
      → verify_quote_extension e c hash quote ≡ ok tt
  unfolding verify_quote_extension verify_report
  bound_quote i own laws hash quote got expected =
      let long : ltb (length (hash ++ laws.padding)) (length hash) ≡ false =
        ground (arith, length-append hash laws.padding) in
      rw
        (laws.verify-get hash quote got, long, take-length-append hash laws.padding, same_refl hash)
        expected

  own_quote :
      (i : Issuer) (own : Report) (laws : IsIssuer e i own) (t : Template) (hash quote : Bytes)
      → i.get_remote_report hash ≡ some quote
      → verify_report own c ≡ ok tt
      → verify_extensions e c hash (laws.standard t ++ (oid_oe_new_quote, quote) ∷ []) ≡ ok tt
  unfolding verify_extensions
  own_quote i own laws t hash quote got expected =
      skips_standard hash (laws.standard t) ((oid_oe_new_quote, quote) ∷ []) (laws.no_quotes t)
      ∙ rw (same_refl oid_oe_new_quote) (bound_quote i own laws hash quote got expected)

-- How the config of an enclave came about.
record Issued (e : Enclave) (i : Issuer) (c : EnclaveConfig) (n : SgxTlsConfig) : Type 0 where
  template : Template
  priv : EcdsaKey
  hash : Bytes
  quote : Bytes
  of_key : hash_public_key e priv.public_key ≡ ok hash
  got : i.get_remote_report hash ≡ some quote
  created :
      i.create_certificate
        (record template { extra_extensions = (oid_oe_new_quote, quote) ∷ [] })
        priv
      ≡ some n.certificate
  checks : n.cert_verifier ≡ cert_verifier e c

module _ (e : Enclave) (i : Issuer) where
  tls_of-Issued :
      (template : Template) (priv : EcdsaKey) (hash : Bytes) (c : EnclaveConfig) (n : NodeTlsConfig)
      → template.extra_extensions ≡ []
      → hash_public_key e priv.public_key ≡ ok hash
      → tls_of e i template priv hash (some c) ≡ ok n
      → (m : SgxTlsConfig) × (n ≡ sgx_tls m) × Issued e i c m
  unfolding tls_of
  tls_of-Issued template priv hash c n plain of_key made =
      let (quote, got, e1) = >>=-eq-ok (or_error (i.get_remote_report hash) _) _ made in
      let (raw, created, e2) = >>=-eq-ok (or_error (i.create_certificate _ priv) _) _ e1 in
      (
        _,
        sym (ok-injective e2),
        record {
          template = template;
          priv = priv;
          hash = hash;
          quote = quote;
          of_key = of_key;
          got = or_error-eq-ok _ _ got;
          created =
              subst
                (λ ext.
                  i.create_certificate
                    (record template { extra_extensions = ext ++ (oid_oe_new_quote, quote) ∷ [] })
                    priv
                  ≡ some raw)
                plain (or_error-eq-ok _ _ created);
          checks = refl;
        },
      )

  new_node_tls_config-Issued :
      (draws : Draws) (cn : Bytes) (c : EnclaveConfig) (n : NodeTlsConfig)
      → new_node_tls_config e i draws cn (some c) ≡ ok n
      → (m : SgxTlsConfig) × (n ≡ sgx_tls m) × Issued e i c m
  unfolding new_node_tls_config new_cert_template
  new_node_tls_config-Issued draws cn c n made =
      let (template, drawn, e1) = >>=-eq-ok (new_cert_template e i draws cn) _ made in
      let (serial, random, e2) = >>=-eq-ok (or_error (i.random_int draws.serial _) _) _ drawn in
      let (priv, keyed, e3) = >>=-eq-ok (or_error (i.generate_key draws.key) _) _ e1 in
      let (hash, hashed, e4) = >>=-eq-ok (hash_public_key e priv.public_key) _ e3 in
      tls_of-Issued template priv hash c n
        (ap (λ (t : Template). t.extra_extensions) (sym (ok-injective e2))) hashed e4

  server_of :
      (c : EnclaveConfig) (n : SgxTlsConfig) (certs : List Bytes)
      → Issued e i c n
      → server_admits (server_tls_config e i (sgx_tls n)) certs ≡ cert_verifier e c certs
  unfolding server_admits server_tls_config
  server_of c n certs v = ap (λ f. f certs) v.checks

  own_certificate :
      (own : Report) (laws : IsIssuer e i own) (c : EnclaveConfig) (n : SgxTlsConfig)
      → verify_report own c ≡ ok tt
      → Issued e i c n
      → cert_verifier e c (n.certificate ∷ []) ≡ ok tt
  unfolding cert_verifier
  own_certificate own laws c n expected v =
      let t : Template = record (v.template) {
        extra_extensions = (oid_oe_new_quote, v.quote) ∷ [];
      } in
      let parsed = laws.parse-create t v.priv n.certificate v.created in
      rw (parsed, laws.self_signed t v.priv n.certificate _ v.created parsed, v.of_key)
        (own_quote e c i own laws t v.hash v.quote v.got expected)

  -- The TLS server of a node that expects the enclaves of `c` admits a client that shows the certificate
  -- of any node that is made with the same expectation in an enclave that meets it. It refuses a client
  -- that shows no certificate. Whatever it admits shows a valid report of an expected enclave on its own
  -- public key.
  pub server_admits-new_node_tls_config :
      (own : Report) (laws : IsIssuer e i own) (c : EnclaveConfig) (drawn drawn' : Draws)
      (cn cn' : Bytes) (server peer : NodeTlsConfig)
      → verify_report own c ≡ ok tt
      → new_node_tls_config e i drawn cn (some c) ≡ ok server
      → new_node_tls_config e i drawn' cn' (some c) ≡ ok peer
      → (server_admits
            (server_tls_config e i server)
            ((client_tls_config e i peer).certificate ∷ [])
          ≡ ok tt)
        × (server_admits (server_tls_config e i server) [] ≡ err (failed (str "rawCerts is empty")))
        × ((certs : List Bytes)
            → server_admits (server_tls_config e i server) certs ≡ ok tt
            → IsTrusted e c certs)
  unfolding client_tls_config cert_verifier
  server_admits-new_node_tls_config own laws c drawn drawn' cn cn' server peer expected made made' =
      let (n, is_n, v) = new_node_tls_config-Issued drawn cn c server made in
      let (m, is_m, u) = new_node_tls_config-Issued drawn' cn' c peer made' in
      rw (is_n, is_m)
        (
          server_of c n (m.certificate ∷ []) v ∙ own_certificate own laws c m expected u,
          server_of c n [] v ∙ nothing_shown,
          λ certs admitted.
              cert_verifier-IsTrusted e c certs (sym (server_of c n certs v) ∙ admitted),
        )
    where
      nothing_shown : cert_verifier e c [] ≡ err (failed (str "rawCerts is empty"))
      nothing_shown = refl
