-- ===== src/Web/Endpoint/Attesting.antt =====
-- The attestation of the server, from its certificate to what a client makes of the quote.
use betterkey.Prelude.{ℕ, ◌≡◌, refl, ◌∙◌, ap, List, [], ◌∷◌, ◌++◌, none, some, Bytes}
use betterkey.Common.Hex.{encode_to_string}
use betterkey.Common.Result.{ok}
use betterkey.Crypto.{Toolkit}
use betterkey.Sgx.Report.{
  Report, SgxReport, Enclave, uint16, or_empty, shown, validate_signed_quote,
}
use betterkey.Web.Endpoint.{Attestor, served_certs, first_cert, handle_generate_attestation}
use betterkey.Web.Server.{WebServer}
use betterkey.Web.Http.{HttpRequest}
use betterkey.Web.Reply.{Answer, granted, stay, or_refuse, >>=-granted, or_refuse-granted}

-- What is relied on of the enclave that makes the reports `own`, and of base64: a report starts with
-- the data that it was made over, has a product id of two bytes or more, and its text is decoded back.
pub record IsQuoting (a : Attestor) (k : Toolkit) (e : Enclave) (own : Report) : Type 0 where
  pub padding : Bytes
  pub product_id : ℕ
  pub two_bytes : uint16 own.product_id ≡ ok product_id
  pub verify-get :
      (content quote : Bytes)
      → a.get_remote_report content ≡ some quote
      → e.verify_remote_report quote ≡ (record own { report_data = content ++ padding }, none)
  pub decode-encode :
      (content quote : Bytes)
      → a.get_remote_report content ≡ some quote
      → k.decode_base64 (k.encode_base64 quote) ≡ some quote

module _ (a : Attestor) (k : Toolkit) {S : Type 0} (s : WebServer S) where
  -- A quote over the certificate that the server itself has for a request.
  pub record IsOwnQuote (req : HttpRequest) (text : Bytes) : Type 0 where
    pub cert : Bytes
    pub chain : List Bytes
    pub served : served_certs a k s req ≡ some (cert ∷ chain)
    pub quote : Bytes
    pub made : a.get_remote_report (a.sha256 cert) ≡ some quote
    pub encoded : text ≡ k.encode_base64 quote

  first_cert-some :
      (certs : List Bytes) {cert : Bytes}
      → first_cert certs ≡ some cert
      → (chain : List Bytes) × (certs ≡ cert ∷ chain)
  first_cert-some [] e = cc e
  first_cert-some (c ∷ cs) e = (cs, cc e)

  granted-text :
      {db db' : S} {p q : Bytes}
      → ◌≡◌ {A = Answer Bytes × S} (granted p, db) (granted q, db')
      → q ≡ p
  granted-text e = cc (ap (λ t. t.0) e)

  pub granted-IsOwnQuote :
      (req : HttpRequest) (db : S) (text : Bytes)
      → (handle_generate_attestation a k s req db).0 ≡ granted text
      → IsOwnQuote req text
  unfolding handle_generate_attestation
  granted-IsOwnQuote req db text e =
      let (certs, dialled, e1) =
        >>=-granted (stay (or_refuse (served_certs a k s req) _)) _ db
          (ap (λ r. (r, (handle_generate_attestation a k s req db).1)) e) in
      let (cert, first, e2) = >>=-granted (stay (or_refuse (first_cert certs) _)) _ db e1 in
      let (quote, made, e3) =
        >>=-granted (stay (or_refuse (a.get_remote_report (a.sha256 cert)) _)) _ db e2 in
      let (chain, whole) = first_cert-some certs (or_refuse-granted _ _ first) in
      record {
        cert = cert;
        chain = chain;
        served = or_refuse-granted _ _ dialled ∙ ap some whole;
        quote = quote;
        made = or_refuse-granted _ _ made;
        encoded = granted-text e3;
      }

  -- What a client has of the server that answers with a quote: the report of its enclave, over the hash
  -- of the certificate that the server has for the name of the request.
  pub record IsAttestedServer (e : Enclave) (own : Report) (req : HttpRequest)
      (text padding : Bytes) : Type 0 where
    pub cert : Bytes
    pub chain : List Bytes
    pub served : served_certs a k s req ≡ some (cert ∷ chain)
    pub quote : Bytes
    pub decoded : k.decode_base64 text ≡ some quote
    pub report : SgxReport
    pub validated : validate_signed_quote e quote ≡ ok (some report, none)
    pub over : report.report_data ≡ encode_to_string (a.sha256 cert ++ padding)
    pub enclave_shown :
        (report.unique_id ≡ encode_to_string own.unique_id)
        × (report.signer_id ≡ encode_to_string own.signer_id)
        × (report.debug ≡ own.debug)
        × (report.security_version ≡ own.security_version)

  -- The quote that the server answers with, from base64, passes ValidateSignedQuote without an error,
  -- with the values of the server's enclave and with data that is the hash of the certificate that the
  -- server has for the name of the request, padded, in hex.
  pub handle_generate_attestation-IsAttestedServer :
      (e : Enclave) (own : Report) (laws : IsQuoting a k e own) (req : HttpRequest) (db : S)
      (text : Bytes)
      → (handle_generate_attestation a k s req db).0 ≡ granted text
      → IsAttestedServer e own req text laws.padding
  unfolding validate_signed_quote shown
  handle_generate_attestation-IsAttestedServer e own laws req db text granted_text =
      let q = granted-IsOwnQuote req db text granted_text in
      record {
        cert = q.cert;
        chain = q.chain;
        served = q.served;
        quote = q.quote;
        decoded = ap k.decode_base64 q.encoded ∙ laws.decode-encode _ q.quote q.made;
        report = record {
          report_data = encode_to_string (a.sha256 q.cert ++ laws.padding);
          security_version = own.security_version;
          debug = own.debug;
          unique_id = encode_to_string own.unique_id;
          signer_id = encode_to_string own.signer_id;
          product_id = laws.product_id;
          tcb_status = own.tcb_status;
          tcb_advisories = own.tcb_advisories;
          tcb_advisories_err = or_empty own.tcb_advisories_err;
        };
        validated = rw (laws.verify-get _ q.quote q.made, laws.two_bytes) refl;
        over = refl;
        enclave_shown = (refl, refl, refl, refl);
      }
