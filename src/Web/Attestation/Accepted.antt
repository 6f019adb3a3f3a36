-- ===== src/Web/Attestation/Accepted.antt =====
-- internal/web/attestation.go: what a quote has shown where `Verify` lets it pass.
use betterkey.Prelude.{
  ◌≡◌, refl, subst, ap, ◌∙◌, Bool, true, false, not, some, Bytes, eq_of_same, length, ◌==◌,
}
use betterkey.Common.Result.{Error, ok, check}
use betterkey.Tdx.{TdxQuote, Quoting, new_tdx_quote, verify_quote, verify_report_data}
use betterkey.Web.Reply.{
  Answer, granted, stay, or_refuse, expect, require_that, >>=-granted, or_refuse-granted,
  expect-granted, require_that-granted,
}
use betterkey.Web.Session.{AttestationRequestStore}
use betterkey.Web.Attestation.{
  Protocol, verify, passes_if, quote_missing, quote_undecoded, quote_unparsed, quote_unverified,
  nonce_unverified,
}

passes-check : (b : Bool) (e : Error) → passes_if true (check b e) ≡ true → b ≡ true
passes-check true e h = refl
passes-check false e h = cc h

-- A quote that `Verify` has let pass.
pub record IsAccepted (t : Quoting) (a : Protocol) (nonce text : Bytes) (q : TdxQuote)
    : Type 0 where
  pub raw : Bytes
  pub decoded : t.decode_base64 text ≡ some raw
  pub parsed : new_tdx_quote t raw ≡ ok q
  pub signed : a.enforce_quote_verify ≡ true → t.raw_tdx_quote q.raw ≡ true
  pub fresh : a.dev_mode ≡ false → q.parsed.td_quote_body.report_data ≡ nonce

pub granted-injective :
    {S A : Type 0} {p q : A} {db db' : S}
    → ◌≡◌ {A = Answer A × S} (granted p, db) (granted q, db')
    → p ≡ q
granted-injective h = cc (ap (λ t. t.0) h)

pub verify-IsAccepted :
    (t : Quoting) (a : Protocol) {S : Type 0} (r : AttestationRequestStore) (text : Bytes)
    (db db' : S) (q : TdxQuote)
    → verify t a r text db ≡ (granted q, db')
    → IsAccepted t a r.nonce text q
unfolding verify verify_quote verify_report_data
verify-IsAccepted t a {S = S} r text db db' q e =
    let (u, e0, r0) =
      >>=-granted (stay (require_that (not (length text == 0)) quote_missing)) _ db e in
    let (raw, e1, r1) =
      >>=-granted (stay (or_refuse (t.decode_base64 text) quote_undecoded)) _ db r0 in
    let (quote, e2, r2) =
      >>=-granted (stay (expect (new_tdx_quote t raw) quote_unparsed)) _ db r1 in
    let (v, e3, r3) =
      >>=-granted
        (stay
          (require_that (passes_if a.enforce_quote_verify (verify_quote t quote)) quote_unverified))
        _ db r2 in
    let (w, e4, r4) =
      >>=-granted
        (stay (
          require_that (passes_if (not a.dev_mode) (verify_report_data quote r.nonce))
            nonce_unverified))
        _ db r3 in
    let same_quote : quote ≡ q = granted-injective r4 in
    let signed = require_that-granted _ _ e3 in
    let fresh = require_that-granted _ _ e4 in
    record {
      raw = raw;
      decoded = or_refuse-granted _ _ e1;
      parsed = expect-granted _ _ e2 ∙ ap ok same_quote;
      signed = λ h.
          subst (λ p. t.raw_tdx_quote p.raw ≡ true) same_quote
            (passes-check _ _ (subst (λ b. passes_if b (verify_quote t quote) ≡ true) h signed));
      fresh = λ h.
          subst (λ p. p.parsed.td_quote_body.report_data ≡ r.nonce) same_quote
            (eq_of_same _ _ (
              passes-check _ _ (
                subst (λ b. passes_if (not b) (verify_report_data quote r.nonce) ≡ true) h fresh)));
    }
