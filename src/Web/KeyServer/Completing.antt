-- ===== src/Web/KeyServer/Completing.antt =====
-- A machine that attests gets as far as the derivation of its key.
use betterkey.Prelude.{
  some-injective, ◌≡◌, refl, sym, ap, subst, ◌∙◌, Bool, true, false, not, some, Bytes, same_refl,
  length, ◌==◌,
}
use betterkey.Common.KeyStore.{IsStore, >>=-eq-ok}
use betterkey.Common.Model.{Platform}
use betterkey.Common.Result.{Result, ok, ok-injective}
use betterkey.Crypto.{Toolkit}
use betterkey.Tdx.{
  TdxQuote, EventLog, Quoting, new_tdx_quote, verify_quote, verify_report_data, new_event_log,
}
use betterkey.Tdx.Measured.{IsMeasured, verify_event_log-IsMeasured}
use betterkey.Web.Attestation.{Protocol, passes_if, verify}
use betterkey.Web.KeyServer.{
  KeyRequest, AttestationRequest, Json, Attested, KeyServer, init_failed, attested,
  key_request_init, handle_key_request_init, journal_key, release, key_request_finalize,
  handle_key_request_finalize,
}
use betterkey.Web.KeyService.{Key, derive_seed_from_measurements}
use betterkey.Web.Reply.{
  Answer, granted, refused, crashed, stay, or_refuse, expect, require_that, >>=-granted,
  or_refuse-granted, expect-granted, require_that-granted,
}
use betterkey.Web.Session.{
  AttestationRequestStore, VerifyResponse, Draw, create, get, init, delete_session,
  generate_session_id,
}
use betterkey.Web.Session.Keeping.{IsJson, get-create}

-- What a machine sends that runs on the hardware and answers with the nonce.
pub record IsHonest (t : Quoting) (nonce : Bytes) (req : AttestationRequest) (quote : TdxQuote)
    (log : EventLog) (cfv : Bytes) : Type 0 where
  pub raw : Bytes
  pub present : (length req.quote == 0) ≡ false
  pub decoded : t.decode_base64 req.quote ≡ some raw
  pub parsed : new_tdx_quote t raw ≡ ok quote
  pub signed : t.raw_tdx_quote quote.raw ≡ true
  pub fresh : quote.parsed.td_quote_body.report_data ≡ nonce
  pub logged : new_event_log t req.event_log ≡ ok log
  pub measured : IsMeasured t log quote cfv

not-true : (b : Bool) → not b ≡ true → b ≡ false
not-true true e = cc e
not-true false e = refl

passes_ok : (enforced : Bool) → passes_if enforced (ok tt) ≡ true
passes_ok true = refl
passes_ok false = refl

verify-honest :
    (t : Quoting) (a : Protocol) {S : Type 0} (r : AttestationRequestStore)
    (req : AttestationRequest) (quote : TdxQuote) (log : EventLog) (cfv : Bytes) (db : S)
    → IsHonest t r.nonce req quote log cfv
    → verify t a r req.quote db ≡ (granted quote, db)
unfolding verify verify_quote verify_report_data
verify-honest t a r req quote log cfv db h =
    rw
      (
        h.present,
        h.decoded,
        h.parsed,
        h.signed,
        h.fresh,
        same_refl r.nonce,
        passes_ok a.enforce_quote_verify,
        passes_ok (not a.dev_mode),
      )
      refl

module _ (x : Platform) (t : Quoting) (k : Toolkit) (j : Json) {S : Type 0} (s : KeyServer S) where
  abbrev shown_by : KeyRequest → TdxQuote → EventLog → Bytes → Attested
  shown_by request quote log cfv = record {
    request = request;
    quote = quote;
    event_log = log;
    seed = derive_seed_from_measurements x k s.key_service quote.parsed.td_quote_body.mr_td cfv;
  }

  attested-honest :
      (req : AttestationRequest) (r : AttestationRequestStore) (request : KeyRequest)
      (quote : TdxQuote) (log : EventLog) (cfv : Bytes) (db db' : S)
      → (get j.session s.sessions req.session_id db).0 ≡ granted r
      → j.unmarshal_key_request r.payload ≡ some request
      → (length request.id == 0) ≡ false
      → IsHonest t r.nonce req quote log cfv
      → delete_session j.session s.sessions req.session_id
          (get j.session s.sessions req.session_id db).1
        ≡ (ok tt, db')
      → attested x t k j s req db ≡ (granted (shown_by request quote log cfv), db')
  unfolding attested
  attested-honest req r request quote log cfv db db' got asked named h deleted =
      rw
        (
          got,
          asked,
          named,
          verify-honest t s.challenge_response r req quote log cfv
              (get j.session s.sessions req.session_id db).1 h,
          h.logged,
          (verify_event_log-IsMeasured t log quote cfv).1 h.measured,
          deleted,
        )
        refl

  answer-journal_key :
      (a : Attested) (req : AttestationRequest) (p : Answer Key × S)
      → ((journal_key x t k j s a req p).answer ≡ p.0)
        × ((journal_key x t k j s a req p).store ≡ p.1)
  answer-journal_key a req (granted key, db) = (refl, refl)
  answer-journal_key a req (refused e, db) = (refl, refl)
  answer-journal_key a req (crashed, db) = (refl, refl)

  init-session :
      (d : Draw) (payload : Bytes) (resp : VerifyResponse) (db db' : S)
      → IsStore s.sessions
      → IsJson j.session
      → init k j.session s.sessions d payload db ≡ (ok resp, db')
      → (resp.nonce ≡ k.encode_base64 d.nonce)
        × ((get j.session s.sessions resp.session_id db').0
            ≡ granted (record { nonce = d.nonce; payload = payload }))
  unfolding init
  init-session d payload resp db db' store json_laws e =
      let (id, db1, created, last) =
        >>=-eq-ok (create j.session s.sessions (generate_session_id d.now d.uuid) d.nonce payload) _
          db e in
      let (same_id, found, others) =
        get-create j.session s.sessions store json_laws (generate_session_id d.now d.uuid) d.nonce
          payload id db db1 created in
      let same_resp = ok-injective (ap (λ (p : Result VerifyResponse × S). p.0) last) in
      (
        ap (λ (r : VerifyResponse). r.nonce) (sym same_resp),
        subst
            (λ db2.
              (get j.session s.sessions resp.session_id db2).0
              ≡ granted (record { nonce = d.nonce; payload = payload }))
            (ap (λ (p : Result VerifyResponse × S). p.1) last)
            (subst
              (λ i.
                (get j.session s.sessions i db1).0
                ≡ granted (record { nonce = d.nonce; payload = payload }))
              (sym same_id ∙ ap (λ (r : VerifyResponse). r.session_id) same_resp) found),
      )

  expect_of-granted :
      (r : Result VerifyResponse × S) (resp : VerifyResponse) (db' : S)
      → ◌≡◌ {A = Answer VerifyResponse × S} (expect r.0 init_failed, r.1) (granted resp, db')
      → r ≡ (ok resp, db')
  expect_of-granted r resp db' e =
      let got = expect-granted r.0 init_failed (ap (λ p. p.0) e) in
      let left = ap (λ (p : Answer VerifyResponse × S). p.1) e in λ i. (got i, left i)

  -- A request for a key of a type and an id that `/key/init` has answered, and a machine that then sends
  -- the nonce back in a quote that is signed, with an event log that explains it: `/key/finalize` does
  -- not refuse it. Its answer and its store are those of the derivation of a key for that request, from
  -- the measurements of the quote and the log, where the session can be deleted.
  pub handle_key_request_finalize-completes :
      (draw : Bytes) (d : Draw) (request : KeyRequest) (resp : VerifyResponse) (db db1 db2 : S)
      (nonce : Bytes) (req : AttestationRequest) (quote : TdxQuote) (log : EventLog) (cfv : Bytes)
      → IsStore s.sessions
      → IsJson j.session
      → ((r : KeyRequest) (json : Bytes)
          → j.marshal_key_request r ≡ some json
          → j.unmarshal_key_request json ≡ some r)
      → k.decode_base64 (k.encode_base64 d.nonce) ≡ some d.nonce
      → handle_key_request_init x t k j s d (some request) db ≡ (granted resp, db1)
      → k.decode_base64 resp.nonce ≡ some nonce
      → req.session_id ≡ resp.session_id
      → IsHonest t nonce req quote log cfv
      → delete_session j.session s.sessions req.session_id
          (get j.session s.sessions req.session_id db1).1
        ≡ (ok tt, db2)
      → let derived =
          key_request_finalize x t k j s draw request.id request.type request.ctx
            (derive_seed_from_measurements x k s.key_service quote.parsed.td_quote_body.mr_td cfv)
            db2 in
        ((handle_key_request_finalize x t k j s draw (some req) db1).answer ≡ derived.0)
        × ((handle_key_request_finalize x t k j s draw (some req) db1).store ≡ derived.1)
  unfolding handle_key_request_init key_request_init handle_key_request_finalize
  handle_key_request_finalize-completes draw d request resp db db1 db2 nonce req quote log cfv store
        json_laws request_json base64 inited told same_id honest deleted =
      let (u1, typed, e1) =
        >>=-granted (stay (require_that (not (length request.type == 0)) _)) _ db inited in
      let (u2, named, e2) =
        >>=-granted (stay (require_that (not (length request.id == 0)) _)) _ db e1 in
      let (json, marshalled, e3) =
        >>=-granted (stay (or_refuse (j.marshal_key_request request) _)) _ db e2 in
      let (nonce_told, found) =
        init-session d json resp db db1 store json_laws
          (expect_of-granted (init k j.session s.sessions d json db) resp db1 e3) in
      let same_nonce : nonce ≡ d.nonce =
        some-injective (sym told ∙ ap k.decode_base64 nonce_told ∙ base64) in
      let shown : attested x t k j s req db1 ≡ (granted (shown_by request quote log cfv), db2) =
        attested-honest req (record { nonce = d.nonce; payload = json }) request quote log cfv db1
          db2 (ap (λ i. (get j.session s.sessions i db1).0) same_id ∙ found)
          (request_json request json (or_refuse-granted _ _ marshalled))
          (not-true _ (require_that-granted _ _ named))
          (subst (λ n. IsHonest t n req quote log cfv) same_nonce honest) deleted in
      let (answer, kept) = answer-journal_key (shown_by request quote log cfv) req _ in
      (
        ap (λ p. (release x t k j s draw req p).answer) shown ∙ answer,
        ap (λ p. (release x t k j s draw req p).store) shown ∙ kept,
      )
