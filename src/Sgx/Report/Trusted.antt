-- ===== src/Sgx/Report/Trusted.antt =====
-- What a peer's certificate must carry for the verifier to let it pass.
use betterkey.Prelude.{
  ℕ, ◌≡◌, refl, subst, ap, sym, ◌∙◌, inl, inr, Bool, true, false, List, [], ◌∷◌, ◌++◌, Option, none,
  some, arith, All, Bytes, same, eq_of_same, take, length, ltb, ◌==◌, Bool-cases, if◌then◌else◌,
}
use betterkey.Common.Hex.{encode_to_string}
use betterkey.Common.Result.{Error, Result, ok, check, require, >>=-eq-ok}
use betterkey.Common.Services.{or_error, or_error-eq-ok}
use betterkey.Sgx.Report.{
  Report, EnclaveConfig, Certificate, Enclave, oid_oe_new_quote, uint16, contains_version,
  same_bool, verify_report, hash_public_key, without_error, verify_quote_extension,
  verify_extensions, cert_verifier,
}

-- The report is of an enclave that the configuration names.
pub record IsExpected (r : Report) (c : EnclaveConfig) : Type 0 where
  pub product : uint16 r.product_id ≡ ok c.product_id
  pub version : contains_version c.security_versions r.security_version ≡ true
  pub debug : c.debug ≡ r.debug
  pub signer : c.signer_id ≡ encode_to_string r.signer_id

-- The first certificate is signed by itself, and its first quote is a valid report of an expected
-- enclave, on the hash of the certificate's public key.
pub record IsTrusted (e : Enclave) (c : EnclaveConfig) (raws : List Bytes) : Type 0 where
  pub raw : Bytes
  pub others : List Bytes
  pub first : raws ≡ raw ∷ others
  pub cert : Certificate
  pub parsed : e.parse_certificate raw ≡ some cert
  pub self_signed : e.verify_self_signed cert ≡ true
  pub pkix : Bytes
  pub marshalled : e.marshal_pkix cert.public_key ≡ some pkix
  pub before : List (Bytes × Bytes)
  pub id : Bytes
  pub value : Bytes
  pub after : List (Bytes × Bytes)
  pub split : cert.extensions ≡ before ++ (id, value) ∷ after
  pub skipped : All (λ x. same x.0 oid_oe_new_quote ≡ false) before
  pub of_quote : id ≡ oid_oe_new_quote
  pub report : Report
  pub attested : e.verify_remote_report value ≡ (report, none)
  pub bound : take (length (e.sha256 pkix)) report.report_data ≡ e.sha256 pkix
  pub expected : IsExpected report c

check-passed : (b : Bool) (f : Error) {u : Unit {0}} → check b f ≡ ok u → b ≡ true
check-passed true f h = refl
check-passed false f h = cc h

same_bool-eq : (a b : Bool) → same_bool a b ≡ true → a ≡ b
same_bool-eq true b h = sym h
same_bool-eq false true h = cc h
same_bool-eq false false h = refl

verify_report-IsExpected :
    (r : Report) (c : EnclaveConfig) → verify_report r c ≡ ok tt → IsExpected r c
unfolding verify_report
verify_report-IsExpected r c h =
    let (p, e0, r0) = >>=-eq-ok (uint16 r.product_id) _ h in
    let (u, e1, r1) = >>=-eq-ok (check (p == c.product_id) _) _ r0 in
    let (v, e2, r2) =
      >>=-eq-ok (check (contains_version c.security_versions r.security_version) _) _ r1 in
    let (w, e3, e4) = >>=-eq-ok (check (same_bool c.debug r.debug) _) _ r2 in
    let same_product : p ≡ c.product_id = numbers p c.product_id (check-passed _ _ e1) in
    record {
      product = e0 ∙ ap ok same_product;
      version = check-passed _ _ e2;
      debug = same_bool-eq c.debug r.debug (check-passed _ _ e3);
      signer = eq_of_same c.signer_id (encode_to_string r.signer_id) (check-passed _ _ e4);
    }
  where
    numbers : (a b : ℕ) → (a == b) ≡ true → a ≡ b
    numbers a b h = ground arith

without_error-ok : (p : Report × Option Error) {r : Report} → without_error p ≡ ok r → p ≡ (r, none)
without_error-ok (report, none) h = let q : report ≡ _ = reports h in ap (λ t. (t, none)) q
  where
    reports : {a b : Report} → ◌≡◌ {A = Result Report} (ok a) (ok b) → a ≡ b
    reports h = cc h
without_error-ok (report, some f) h = cc h

module _ (e : Enclave) (c : EnclaveConfig) where
  -- What is known of a quote that was let pass.
  QuotePasses : Bytes → Bytes → Type 0
  QuotePasses hash value =
      (r : Report) × (e.verify_remote_report value ≡ (r, none))
      × (take (length hash) r.report_data ≡ hash)
      × IsExpected r c

  verify_quote_extension-QuotePasses :
      (hash value : Bytes) → verify_quote_extension e c hash value ≡ ok tt → QuotePasses hash value
  unfolding verify_quote_extension QuotePasses
  verify_quote_extension-QuotePasses hash value h =
      let (r, e0, r0) = >>=-eq-ok (without_error (e.verify_remote_report value)) _ h in
      let (u, e1, r1) =
        >>=-eq-ok (require (if ltb (length r.report_data) (length hash) then false else true)) _
          r0 in
      let (v, e2, e3) = >>=-eq-ok (check (same (take (length hash) r.report_data) hash) _) _ r1 in
      (
        r,
        without_error-ok _ e0,
        eq_of_same (take (length hash) r.report_data) hash (check-passed _ _ e2),
        verify_report-IsExpected r c e3,
      )

  verify_extensions-first :
      (hash : Bytes) (exts : List (Bytes × Bytes))
      → verify_extensions e c hash exts ≡ ok tt
      → (before : List (Bytes × Bytes)) × (id : Bytes) × (value : Bytes) × (after : List
          (Bytes × Bytes))
        × (exts ≡ before ++ (id, value) ∷ after)
        × All (λ x. same x.0 oid_oe_new_quote ≡ false) before
        × (same id oid_oe_new_quote ≡ true)
        × QuotePasses hash value
  unfolding verify_extensions
  verify_extensions-first hash [] h = cc h
  verify_extensions-first hash ((id, value) ∷ rest) h =
      elim (Bool-cases (same id oid_oe_new_quote)) [
        | inl t ↦ (
          [],
          id,
          value,
          rest,
          refl,
          tt,
          t,
          verify_quote_extension-QuotePasses hash value (rw t at h),
        )
        | inr t ↦
            let (before, i, v, after, split, skipped, found, passes) =
              verify_extensions-first hash rest (rw t at h) in
            (
              (id, value) ∷ before,
              i,
              v,
              after,
              ap (λ l. (id, value) ∷ l) split,
              (t, skipped),
              found,
              passes,
            )
      ]

  -- A peer's certificate passes only where it is trusted: signed by itself, with a quote, the first of
  -- its extensions that is one, that the enclave library verifies without an error, whose report data
  -- starts with the hash of the public key, and whose enclave the configuration expects.
  pub cert_verifier-IsTrusted :
      (raws : List Bytes) → cert_verifier e c raws ≡ ok tt → IsTrusted e c raws
  unfolding cert_verifier hash_public_key QuotePasses
  cert_verifier-IsTrusted [] h = cc h
  cert_verifier-IsTrusted (raw ∷ rest) h =
      let (cert, e0, r0) = >>=-eq-ok (or_error (e.parse_certificate raw) _) _ h in
      let (u, e1, r1) = >>=-eq-ok (check (e.verify_self_signed cert) _) _ r0 in
      let (hash, e2, e3) = >>=-eq-ok (hash_public_key e cert.public_key) _ r1 in
      let (pkix, e4, e5) = >>=-eq-ok (or_error (e.marshal_pkix cert.public_key) _) _ e2 in
      let same_hash : hash ≡ e.sha256 pkix = hashes e5 in
      let (before, id, value, after, split, skipped, found, passes) =
        verify_extensions-first hash cert.extensions e3 in
      let (report, attested, bound, expected) = passes in
      record {
        raw = raw;
        others = rest;
        first = refl;
        cert = cert;
        parsed = or_error-eq-ok _ _ e0;
        self_signed = check-passed _ _ e1;
        pkix = pkix;
        marshalled = or_error-eq-ok _ _ e4;
        before = before;
        id = id;
        value = value;
        after = after;
        split = split;
        skipped = skipped;
        of_quote = eq_of_same id oid_oe_new_quote found;
        report = report;
        attested = attested;
        bound = subst (λ b. take (length b) report.report_data ≡ b) same_hash bound;
        expected = expected;
      }
    where
      hashes : {a b : Bytes} → ◌≡◌ {A = Result Bytes} (ok a) (ok b) → b ≡ a
      hashes h = cc h
