-- ===== src/Sgx/Tls.antt =====
-- internal/sgx/enclave.go: `NewNodeTlsConfig` and the settings of TLS that it leads to. x509 and the
-- enclave are the parameters `Enclave` and `Issuer`.
pub mod Mutual
use betterkey.Prelude.{
  ℕ, Bool, true, false, List, [], ◌∷◌, ◌++◌, Option, none, some, Bytes, str, if◌then◌else◌,
}
use betterkey.Common.Result.{Result, ok, ◌>>=◌}
use betterkey.Common.Services.{or_error}
use betterkey.Sgx.Report.{
  Report, EnclaveConfig, Enclave, oid_oe_new_quote, verify_report, hash_public_key, cert_verifier,
}

-- The fields of `x509.Certificate` that are set.
pub record Template : Type 0 where
  pub serial_number : ℕ
  pub common_name : Bytes
  pub dns_names : List Bytes
  pub not_after : ℕ
  pub extra_extensions : List (Bytes × Bytes)

pub record EcdsaKey : Type 0 where
  pub private_key : Bytes
  pub public_key : Bytes

-- The fields of `tls.Config` that are set: whether the standard checks are left out and whether a client
-- is asked for a certificate, what checks the peer's certificates, and the own one.
pub record TlsConfig : Type 0 where
  pub insecure_skip_verify : Bool
  pub request_client_cert : Bool
  pub verify_peer_certificate : Option (List Bytes → Result (Unit {0}))
  pub certificate : Bytes
  pub private_key : Bytes

-- A serial number below a limit, a new key on P-256, the quote over some data, a certificate that a key
-- signs for itself, and the time a year after another.
pub record Issuer : Type 0 where
  pub random_int : Bytes → ℕ → Option ℕ
  pub generate_key : Bytes → Option EcdsaKey
  pub get_remote_report : Bytes → Option Bytes
  pub create_certificate : Template → EcdsaKey → Option Bytes
  pub add_year : ℕ → ℕ
  -- `enclave.CreateAttestationClientTLSConfig`
  pub create_attestation_client_tls_config : (Report → Result (Unit {0})) → TlsConfig

pub record SgxTlsConfig : Type 0 where
  pub enclave_config : EnclaveConfig
  pub report_verifier : Report → Result (Unit {0})
  pub cert_verifier : List Bytes → Result (Unit {0})
  pub private_key : Bytes
  pub certificate : Bytes

-- `common.NodeTLSConfig`: of an enclave, or one config for both sides.
pub data NodeTlsConfig : Type 0 where
  sgx_tls : SgxTlsConfig → NodeTlsConfig
  auto_tls : TlsConfig → NodeTlsConfig

-- What is drawn, and the clock.
pub record Draws : Type 0 where
  pub serial : Bytes
  pub key : Bytes
  pub now : ℕ

abbrev pub serial_number_limit : ℕ
serial_number_limit = 0x1_0000_0000_0000_0000_0000_0000_0000_0000

module _ (e : Enclave) (i : Issuer) where
  unfoldable pub new_cert_template : Draws → Bytes → Result Template
  new_cert_template draws cn = do
    serial ← or_error (i.random_int draws.serial serial_number_limit) (str "rand")
    ok (record {
      serial_number = serial;
      common_name = cn;
      dns_names = cn ∷ [];
      not_after = i.add_year draws.now;
      extra_extensions = [];
    })

  unfoldable pub tls_of : Template → EcdsaKey → Bytes → Option EnclaveConfig → Result NodeTlsConfig
  tls_of template priv hash (some enclave_config) = do
    quote ← or_error (i.get_remote_report hash) (str "report")
    cert ←
        or_error
          (i.create_certificate
            (record template {
              extra_extensions = template.extra_extensions ++ (oid_oe_new_quote, quote) ∷ [];
            })
            priv)
          (str "x509")
    ok (
        sgx_tls (record {
          enclave_config = enclave_config;
          report_verifier = λ report. verify_report report enclave_config;
          cert_verifier = cert_verifier e enclave_config;
          private_key = priv.private_key;
          certificate = cert;
        }))
  tls_of template priv hash none = do
    cert ← or_error (i.create_certificate template priv) (str "x509")
    ok (
        auto_tls (record {
          insecure_skip_verify = true;
          request_client_cert = false;
          verify_peer_certificate = none;
          certificate = cert;
          private_key = priv.private_key;
        }))

  unfoldable pub new_node_tls_config : Draws → Bytes → Option EnclaveConfig → Result NodeTlsConfig
  unfolding new_cert_template tls_of
  new_node_tls_config draws cn enclave_config = do
    template ← new_cert_template draws cn
    priv ← or_error (i.generate_key draws.key) (str "ecdsa")
    hash ← hash_public_key e priv.public_key
    tls_of template priv hash enclave_config

  unfoldable pub server_tls_config : NodeTlsConfig → TlsConfig
  server_tls_config (sgx_tls n) =
      record (i.create_attestation_client_tls_config n.report_verifier) {
        insecure_skip_verify = true;
        request_client_cert = true;
        verify_peer_certificate = some n.cert_verifier;
        certificate = n.certificate;
        private_key = n.private_key;
      }
  server_tls_config (auto_tls config) = config

  unfoldable pub client_tls_config : NodeTlsConfig → TlsConfig
  client_tls_config (sgx_tls n) =
      record (i.create_attestation_client_tls_config n.report_verifier) {
        insecure_skip_verify = true;
        certificate = n.certificate;
        private_key = n.private_key;
      }
  client_tls_config (auto_tls config) = config

abbrev verify_with : Option (List Bytes → Result (Unit {0})) → List Bytes → Result (Unit {0})
verify_with none certs = ok tt
verify_with (some verify) certs = verify certs

-- What crypto/tls does on the side of a server, where the standard checks are left out: a client that is
-- asked for certificates may send none, and the own check sees what it sends.
unfoldable pub server_admits : TlsConfig → List Bytes → Result (Unit {0})
server_admits config certs =
    if config.request_client_cert then verify_with config.verify_peer_certificate certs else ok tt
