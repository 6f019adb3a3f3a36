-- ===== src/Web/KeyServer/Release.antt =====
-- When a key is released: what a machine must have shown.
use betterkey.Prelude.{
  ◌++◌, ◌≡◌, ◌≢◌, refl, subst, ap, inl, inr, true, not, [], ◌∷◌, some, Bytes, length, ◌==◌,
  Bool-cases,
}
use betterkey.Common.Model.{Platform}
use betterkey.Common.Result.{Result-cases, ok}
use betterkey.Crypto.{Toolkit}
use betterkey.Tdx.{TdxQuote, Quoting, new_event_log, verify_event_log}
use betterkey.Tdx.Measured.{IsMeasured, verify_event_log-IsMeasured}
use betterkey.Web.Reply.{
  Answer, granted, refused, crashed, stay, or_refuse, expect, require_that, >>=-granted,
  or_refuse-granted, expect-granted, require_that-granted,
}
use betterkey.Web.Session.{AttestationRequestStore, get, fetched, store_prefix_session}
use betterkey.Web.Attestation.{verify}
use betterkey.Web.Attestation.Accepted.{IsAccepted, verify-IsAccepted, granted-injective}
use betterkey.Web.KeyService.{Key, derive_seed_from_measurements}
use betterkey.Web.KeyServer.{
  request_unreadable, id_missing, log_refused, close_session, AttestationRequest, Json, KeyServer,
  Attested, attested, release, journal_key, key_request_finalize, key_succeeded,
  handle_key_request_finalize,
}

not_empty : (b : Bytes) → not (length b == 0) ≡ true → b ≢ []
not_empty [] e = cc e
not_empty (c ∷ cs) e = λ h. cc h

module _ (x : Platform) (t : Quoting) (k : Toolkit) (j : Json) {S : Type 0} (s : KeyServer S) where
  -- What a machine has shown where the checks pass, for a request and the seed of its key.
  pub record IsAttested (req : AttestationRequest) (db : S) (a : Attested) : Type 0 where
    pub json : Bytes
    pub session : AttestationRequestStore
    pub cfv : Bytes
    pub stored : (s.sessions.read (store_prefix_session ++ req.session_id) db).0 ≡ ok json
    pub read_back : j.session.unmarshal json ≡ some session
    pub asked : j.unmarshal_key_request session.payload ≡ some a.request
    pub named : a.request.id ≢ []
    pub accepted : IsAccepted t s.challenge_response session.nonce req.quote a.quote
    pub logged : new_event_log t req.event_log ≡ ok a.event_log
    pub measured : IsMeasured t a.event_log a.quote cfv
    pub seeded :
        a.seed
        ≡ derive_seed_from_measurements x k s.key_service a.quote.parsed.td_quote_body.mr_td cfv

  -- What stands behind a released key.
  pub record IsReleased (req : AttestationRequest) (draw : Bytes) (db : S) (key : Key)
      : Type 0 where
    pub shown : Attested
    pub attestation : IsAttested req db shown
    pub rest : S
    pub derived :
        (key_request_finalize x t k j s draw shown.request.id shown.request.type shown.request.ctx
          shown.seed rest).0
        ≡ granted key

  pub get-granted :
      (id : Bytes) (db : S) (r : AttestationRequestStore)
      → (get j.session s.sessions id db).0 ≡ granted r
      → (json : Bytes) × ((s.sessions.read (store_prefix_session ++ id) db).0 ≡ ok json)
        × (j.session.unmarshal json ≡ some r)
  unfolding get fetched
  get-granted id db r e = elim (Result-cases (s.sessions.read (store_prefix_session ++ id) db).0) [
    | inl (json, h) ↦ (json, h, or_refuse-granted _ _ (rw h at e))
    | inr (inl (f, h)) ↦ elim (Bool-cases (s.sessions.has_nil f)) [
      | inl n ↦ cc (rw (h, n) at e)
      | inr n ↦ cc (rw (h, n) at e)
    ]
    | inr (inr h) ↦ cc (rw h at e)
  ]

  -- What a released key leaves behind it, once the checks are done.
  journal_key-granted :
      (a : Attested) (req : AttestationRequest) (key : Key) (p : Answer Key × S)
      → (journal_key x t k j s a req p).answer ≡ granted key
      → (p.0 ≡ granted key)
        × ((journal_key x t k j s a req p).journal ≡ key_succeeded x t k j s a req ∷ [])
  journal_key-granted a req key (granted v, db) e = (e, refl)
  journal_key-granted a req key (refused f, db) e = cc e
  journal_key-granted a req key (crashed, db) e = cc e

  release-granted :
      (draw : Bytes) (req : AttestationRequest) (key : Key) (r : Answer Attested × S)
      → (release x t k j s draw req r).answer ≡ granted key
      → (a : Attested) × (db' : S) × (r ≡ (granted a, db'))
        × ((key_request_finalize x t k j s draw a.request.id a.request.type a.request.ctx a.seed
              db').0
            ≡ granted key)
        × ((release x t k j s draw req r).journal ≡ key_succeeded x t k j s a req ∷ [])
  release-granted draw req key (granted a, db') e =
      let (key_of, entry) = journal_key-granted a req key _ e in (a, db', refl, key_of, entry)
  release-granted draw req key (refused f, db') e = cc e
  release-granted draw req key (crashed, db') e = cc e

  attested-IsAttested :
      (req : AttestationRequest) (db db' : S) (a : Attested)
      → attested x t k j s req db ≡ (granted a, db')
      → IsAttested req db a
  unfolding attested
  attested-IsAttested req db db' a checks =
      let (session, e0, r0) = >>=-granted (get j.session s.sessions req.session_id) _ db checks in
      let db1 : S = (get j.session s.sessions req.session_id db).1 in
      let (json, stored, read_back) = get-granted req.session_id db session e0 in
      let (request, e1, r1) =
        >>=-granted (stay (or_refuse (j.unmarshal_key_request session.payload) request_unreadable))
          _ db1 r0 in
      let (u, e2, r2) =
        >>=-granted (stay (require_that (not (length request.id == 0)) id_missing)) _ db1 r1 in
      let (quote, e3, r3) =
        >>=-granted (verify t s.challenge_response session req.quote) _ db1 r2 in
      let db2 : S = (verify t s.challenge_response session req.quote db1).1 in
      let (log, e4, r4) =
        >>=-granted (stay (expect (new_event_log t req.event_log) log_refused)) _ db2 r3 in
      let (cfv, e5, r5) =
        >>=-granted (stay (expect (verify_event_log t log quote) log_refused)) _ db2 r4 in
      let (v, e6, r6) = >>=-granted (close_session x t k j s req.session_id) _ db2 r5 in
      let made : Attested = record {
        request = request;
        quote = quote;
        event_log = log;
        seed = derive_seed_from_measurements x k s.key_service quote.parsed.td_quote_body.mr_td cfv;
      } in
      subst (IsAttested req db) (granted-injective r6) (record {
        json = json;
        session = session;
        cfv = cfv;
        stored = stored;
        read_back = read_back;
        asked = or_refuse-granted _ _ e1;
        named = not_empty request.id (require_that-granted _ _ e2);
        accepted =
            verify-IsAccepted t s.challenge_response session req.quote db1 db2 quote
              (ap (λ (a : Answer TdxQuote). (a, db2)) e3);
        logged = expect-granted _ _ e4;
        measured = (verify_event_log-IsMeasured t log quote cfv).0 (expect-granted _ _ e5);
        seeded = refl;
      })

  -- A key is released only where the session was in the store and holds a request with an id, the
  -- quote is accepted for the session's nonce, and the event log explains the quote, with Secure Boot
  -- enabled; and the key is derived from the measurements of that quote and log, for the request that
  -- the session holds. The journal then says that the request of that id succeeded.
  pub key_release :
      (draw : Bytes) (req : AttestationRequest) (db : S) (key : Key)
      → (handle_key_request_finalize x t k j s draw (some req) db).answer ≡ granted key
      → (r : IsReleased req draw db key) × ((handle_key_request_finalize x t k j s draw
            (some req)
            db).journal
          ≡ key_succeeded x t k j s r.shown req ∷ [])
  unfolding handle_key_request_finalize
  key_release draw req db key e =
      let (shown, db', checks, derived, entry) =
        release-granted draw req key (attested x t k j s req db) e in
      (
        record {
          shown = shown;
          attestation = attested-IsAttested req db db' shown checks;
          rest = db';
          derived = derived;
        },
        entry,
      )
