-- ===== src/Tests/TlsRuns.antt =====
-- Two nodes in one enclave, and what the theorem on their TLS says of them.
use betterkey.Prelude.{
  some-injective, ℕ, zero, suc, ◌≡◌, refl, subst, true, false, List, [], ◌∷◌, ◌++◌, Option, none,
  some, Bytes, str, same, take, drop, length, take-length-append, drop-length-append,
}
use betterkey.Common.Hex.{encode_to_string}
use betterkey.Common.Result.{Result, ok, err, panic, failed}
use betterkey.Sgx.Report.{Certificate, Enclave, uint16, verify_report, hash_public_key}
use betterkey.Sgx.Report.Trusted.{IsTrusted}
use betterkey.Sgx.Tls.{
  Template, EcdsaKey, Issuer, NodeTlsConfig, auto_tls, Draws, new_node_tls_config,
  server_tls_config, client_tls_config, server_admits,
}
use betterkey.Sgx.Tls.Mutual.{IsIssuer, server_admits-new_node_tls_config}
use betterkey.Tests.ReportRuns.{report, config}

-- Fields behind their lengths.
abbrev pub with_length : Bytes → Bytes → Bytes
with_length field rest = length field ∷ (field ++ rest)

abbrev pub field : Bytes → Bytes
field [] = []
field (n ∷ r) = take n r

abbrev pub behind : Bytes → Bytes
behind [] = []
behind (n ∷ r) = drop n r

abbrev write_extensions : List (Bytes × Bytes) → Bytes
write_extensions [] = []
write_extensions ((id, value) ∷ xs) = with_length id (with_length value (write_extensions xs))

abbrev read_extensions : ℕ → Bytes → List (Bytes × Bytes)
read_extensions zero bs = []
read_extensions (suc n) bs = (field bs, field (behind bs)) ∷ read_extensions n (behind (behind bs))

read_extensions-write_extensions :
    (xs : List (Bytes × Bytes)) → read_extensions (length xs) (write_extensions xs) ≡ xs
read_extensions-write_extensions [] = refl
read_extensions-write_extensions ((id, value) ∷ xs) =
    rw
      (
        take-length-append id (with_length value (write_extensions xs)),
        drop-length-append id (with_length value (write_extensions xs)),
      )
      (rw (
        take-length-append value (write_extensions xs),
        drop-length-append value (write_extensions xs),
        read_extensions-write_extensions xs,
      ))

abbrev write_certificate : Template → EcdsaKey → Bytes
write_certificate t priv =
    length t.extra_extensions ∷ with_length priv.public_key (write_extensions t.extra_extensions)

abbrev read_certificate : Bytes → Option Certificate
read_certificate [] = none
read_certificate (n ∷ bs) = some (record {
  public_key = field bs;
  extensions = (str "2.5.29.17", []) ∷ read_extensions n (behind bs);
})

abbrev pub issuing : Enclave
issuing = record {
  verify_remote_report = λ quote. (record report { report_data = quote ++ 0 ∷ 0 ∷ [] }, none);
  parse_certificate = read_certificate;
  verify_self_signed = λ c. true;
  marshal_pkix = λ b. some b;
  sha256 = λ b. b;
}

abbrev pub issuer : Issuer
issuer = record {
  random_int = λ draw limit. some 7;
  generate_key = λ draw. some (record { private_key = draw; public_key = 5 ∷ draw });
  get_remote_report = λ content. some content;
  create_certificate = λ t priv. some (write_certificate t priv);
  add_year = λ t. t;
  create_attestation_client_tls_config = λ verify. record {
    insecure_skip_verify = false;
    request_client_cert = false;
    verify_peer_certificate = none;
    certificate = [];
    private_key = [];
  };
}

issuer-IsIssuer : IsIssuer issuing issuer report
unfolding same
issuer-IsIssuer = record {
  standard = λ t. (str "2.5.29.17", []) ∷ [];
  no_quotes = λ t. (refl, tt);
  parse-create = λ t priv raw e.
      subst
        (λ b.
          read_certificate b
          ≡ some (record {
            public_key = priv.public_key;
            extensions = ((str "2.5.29.17", []) ∷ []) ++ t.extra_extensions;
          }))
        (some-injective e)
        (rw (
          take-length-append priv.public_key (write_extensions t.extra_extensions),
          drop-length-append priv.public_key (write_extensions t.extra_extensions),
          read_extensions-write_extensions t.extra_extensions,
        ));
  self_signed = λ t priv raw cert e p. refl;
  padding = 0 ∷ 0 ∷ [];
  verify-get = λ content quote e.
      subst
        (λ q.
          issuing.verify_remote_report q
          ≡ (record report { report_data = content ++ 0 ∷ 0 ∷ [] }, none))
        (some-injective e) refl;
}

abbrev pub draws : Bytes → Draws
draws key = record { serial = []; key = key; now = 9 }

abbrev config_or_auto : Result NodeTlsConfig → NodeTlsConfig
config_or_auto (ok n) = n
config_or_auto (err e) = auto_tls (issuer.create_attestation_client_tls_config (λ r. ok tt))
config_or_auto panic = auto_tls (issuer.create_attestation_client_tls_config (λ r. ok tt))

unfoldable pub node_tls : Bytes → NodeTlsConfig
unfolding new_node_tls_config hash_public_key
node_tls key = config_or_auto (new_node_tls_config issuing issuer (draws key) key (some config))

server_admits-new_node_tls_config_example :
    (server_admits
        (server_tls_config issuing issuer (node_tls (str "a")))
        ((client_tls_config issuing issuer (node_tls (str "b"))).certificate ∷ [])
      ≡ ok tt)
    × (server_admits (server_tls_config issuing issuer (node_tls (str "a"))) []
        ≡ err (failed (str "rawCerts is empty")))
    × ((certs : List Bytes)
        → server_admits (server_tls_config issuing issuer (node_tls (str "a"))) certs ≡ ok tt
        → IsTrusted issuing config certs)
unfolding node_tls verify_report uint16 encode_to_string same
server_admits-new_node_tls_config_example =
    server_admits-new_node_tls_config issuing issuer report issuer-IsIssuer config (draws (str "a"))
      (draws (str "b")) (str "a") (str "b") (node_tls (str "a")) (node_tls (str "b")) refl refl refl
