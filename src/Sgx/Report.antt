-- ===== src/Sgx/Report.antt =====
-- The checks of enclave reports in internal/sgx/enclave.go: `VerifyReport`, `ValidateSignedQuote`, and
-- the verifier of peer certificates that `NewNodeTlsConfig` makes, with `HashPublicKey` of
-- internal/crypto/x509.go. The enclave and x509 are the parameter `Enclave`.
pub mod Trusted
use betterkey.Prelude.{
  ℕ, ◌+◌, ◌*◌, Bool, true, false, List, [], ◌∷◌, Option, none, some, Bytes, str, same, take, length,
  ltb, ◌==◌, if◌then◌else◌,
}
use betterkey.Common.Hex.{encode_to_string}
use betterkey.Common.Result.{Error, Result, ok, err, panic, failed, ◌>>=◌, ◌>>◌, check, require}
use betterkey.Common.Services.{or_error}

-- `attestation.Report`, with its TCB status and advisories as texts.
pub record Report : Type 0 where
  pub report_data : Bytes
  pub security_version : ℕ
  pub debug : Bool
  pub unique_id : Bytes
  pub signer_id : Bytes
  pub product_id : Bytes
  pub tcb_status : Bytes
  pub tcb_advisories : List Bytes
  pub tcb_advisories_err : Option Bytes

pub record EnclaveConfig : Type 0 where
  pub product_id : ℕ
  pub debug : Bool
  pub signer_id : Bytes
  pub security_versions : List ℕ

-- The report that is shown, its bytes in hex.
pub record SgxReport : Type 0 where
  pub report_data : Bytes
  pub security_version : ℕ
  pub debug : Bool
  pub unique_id : Bytes
  pub signer_id : Bytes
  pub product_id : ℕ
  pub tcb_status : Bytes
  pub tcb_advisories : List Bytes
  pub tcb_advisories_err : Bytes

-- A parsed certificate: its public key, and its extensions by id.
pub record Certificate : Type 0 where
  pub public_key : Bytes
  pub extensions : List (Bytes × Bytes)

pub record Enclave : Type 0 where
  -- The report, and an error beside it.
  pub verify_remote_report : Bytes → Report × Option Error
  pub parse_certificate : Bytes → Option Certificate
  -- `cert.Verify` with the certificate as its own root.
  pub verify_self_signed : Certificate → Bool
  pub marshal_pkix : Bytes → Option Bytes
  pub sha256 : Bytes → Bytes

abbrev pub oid_oe_new_quote : Bytes
oid_oe_new_quote = str "1.3.6.1.4.1.311.105.1"

-- `binary.LittleEndian.Uint16`
unfoldable pub uint16 : Bytes → Result ℕ
uint16 [] = panic
uint16 (a ∷ []) = panic
uint16 (a ∷ b ∷ rest) = ok (a + b * 256)

abbrev pub contains_version : List ℕ → ℕ → Bool
contains_version [] v = false
contains_version (w ∷ ws) v = if w == v then true else contains_version ws v

abbrev pub same_bool : Bool → Bool → Bool
same_bool true b = b
same_bool false true = false
same_bool false false = true

unfoldable pub verify_report : Report → EnclaveConfig → Result (Unit {0})
verify_report report config = do
  product_id ← uint16 report.product_id
  check (product_id == config.product_id) (failed (str "productId does not match"))
  check (contains_version config.security_versions report.security_version)
      (failed (str "SecurityVersion does not match"))
  check (same_bool config.debug report.debug) (failed (str "debug does not match"))
  check (same config.signer_id (encode_to_string report.signer_id))
      (failed (str "SignerId does not match"))

abbrev pub or_empty : Option Bytes → Bytes
or_empty none = []
or_empty (some b) = b

abbrev pub without_error : Report × Option Error → Result Report
without_error (report, none) = ok report
without_error (report, some f) = err f

module _ (e : Enclave) where
  unfoldable pub hash_public_key : Bytes → Result Bytes
  hash_public_key public_key = do
    pub_bytes ← or_error (e.marshal_pkix public_key) (str "x509")
    ok (e.sha256 pub_bytes)

  unfoldable pub shown : Report → Result SgxReport
  shown report = do
    product_id ← uint16 report.product_id
    ok (record {
      report_data = encode_to_string report.report_data;
      security_version = report.security_version;
      debug = report.debug;
      unique_id = encode_to_string report.unique_id;
      signer_id = encode_to_string report.signer_id;
      product_id = product_id;
      tcb_status = report.tcb_status;
      tcb_advisories = report.tcb_advisories;
      tcb_advisories_err = or_empty report.tcb_advisories_err;
    })

  abbrev with_error : Result SgxReport → Option Error → Result (Option SgxReport × Option Error)
  with_error (ok r) o = ok (some r, o)
  with_error (err f) o = err f
  with_error panic o = panic

  -- `ValidateSignedQuote`: a report with data is shown beside the error.
  unfoldable pub validate_signed_quote : Bytes → Result (Option SgxReport × Option Error)
  unfolding shown
  validate_signed_quote quote = decide (e.verify_remote_report quote)
    where
      decide : Report × Option Error → Result (Option SgxReport × Option Error)
      decide (report, none) = with_error (shown report) none
      decide (report, some f) =
          if length report.report_data == 0
          then ok (none, some f)
          else with_error (shown report) (some f)

  -- `report.Data[:len(hash)]` ends in a panic where the data is shorter.
  unfoldable pub verify_quote_extension : EnclaveConfig → Bytes → Bytes → Result (Unit {0})
  unfolding verify_report
  verify_quote_extension config hash value = do
    report ← without_error (e.verify_remote_report value)
    require (if ltb (length report.report_data) (length hash) then false else true)
    check (same (take (length hash) report.report_data) hash)
        (failed (str "certificate hash does not match report data"))
    verify_report report config

  -- The loop over the extensions: the first quote decides.
  unfoldable pub verify_extensions :
      EnclaveConfig → Bytes → List (Bytes × Bytes) → Result (Unit {0})
  unfolding verify_quote_extension
  verify_extensions config hash [] =
      err (failed (str "certificate does not contain attestation report"))
  verify_extensions config hash ((id, value) ∷ rest) =
      let others = verify_extensions config hash rest in
      if same id oid_oe_new_quote then verify_quote_extension config hash value else others

  -- `certVerifier`
  unfoldable pub cert_verifier : EnclaveConfig → List Bytes → Result (Unit {0})
  unfolding hash_public_key verify_extensions
  cert_verifier config [] = err (failed (str "rawCerts is empty"))
  cert_verifier config (raw ∷ rest) = do
    cert ← or_error (e.parse_certificate raw) (str "x509")
    check (e.verify_self_signed cert) (failed (str "x509"))
    hash ← hash_public_key cert.public_key
    verify_extensions config hash cert.extensions
