-- ===== src/Web/Attestation.antt =====
-- internal/web/attestation.go: the check of a quote against a session, without `Init`, which is in
-- the module Session.
pub mod Accepted
use betterkey.Prelude.{Bool, true, false, Bytes, str, not, length, ◌==◌, if◌then◌else◌}
use betterkey.Common.Result.{Result, ok, err, panic}
use betterkey.Tdx.{TdxQuote, Quoting, new_tdx_quote, verify_quote, verify_report_data}
use betterkey.Web.Reply.{
  ErrorWithCode, new_error, bad_request, unauthorized, granted, or_refuse, expect, require_that,
  Handler, stay, ◌>>=◌, ◌>>◌,
}
use betterkey.Web.Session.{AttestationRequestStore}

-- The settings of an `AttestationVerificationProtocol`.
pub record Protocol : Type 0 where
  pub dev_mode : Bool
  pub enforce_quote_verify : Bool

abbrev pub is_ok : Result (Unit {0}) → Bool
is_ok (ok u) = true
is_ok (err e) = false
is_ok panic = false

abbrev pub quote_missing : ErrorWithCode
quote_missing = new_error (str "Invalid quote") unauthorized

abbrev pub quote_undecoded : ErrorWithCode
quote_undecoded = new_error (str "Invalid quote") bad_request

abbrev pub quote_unparsed : ErrorWithCode
quote_unparsed = new_error (str "Failed to parse quote") bad_request

abbrev pub quote_unverified : ErrorWithCode
quote_unverified = new_error (str "Quote verification failed") unauthorized

abbrev pub nonce_unverified : ErrorWithCode
nonce_unverified = new_error (str "verification of nonce failed") unauthorized

-- Where the check must pass, it does; else its error is only logged.
abbrev pub passes_if : Bool → Result (Unit {0}) → Bool
passes_if enforced r = if enforced then is_ok r else true

module _ (t : Quoting) (a : Protocol) {S : Type 0} where
  -- `Verify`, which leaves the store alone.
  unfoldable pub verify : AttestationRequestStore → Bytes → Handler S TdxQuote
  verify request_store td_quote = do
    stay (require_that (not (length td_quote == 0)) quote_missing)
    quote_bytes ← stay (or_refuse (t.decode_base64 td_quote) quote_undecoded)
    quote ← stay (expect (new_tdx_quote t quote_bytes) quote_unparsed)
    stay (require_that (passes_if a.enforce_quote_verify (verify_quote t quote)) quote_unverified)
    stay (
        require_that (passes_if (not a.dev_mode) (verify_report_data quote request_store.nonce))
          nonce_unverified)
    stay (granted quote)
