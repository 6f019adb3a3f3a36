-- ===== src/Web/SealServer/Sealed.antt =====
-- When a payload is sealed: what a machine must have shown.
use betterkey.Prelude.{◌≡◌, refl, ap, [], ◌∷◌, ◌++◌, some, Bytes}
use betterkey.Common.Model.{Platform}
use betterkey.Common.Result.{Result, ok, err, panic}
use betterkey.Crypto.{Toolkit}
use betterkey.Tdx.{TdxQuote, Quoting}
use betterkey.Web.Reply.{Answer, granted, refused, crashed, >>=-granted, or_refuse-granted}
use betterkey.Web.Session.{AttestationRequestStore, get, store_prefix_session}
use betterkey.Web.Attestation.{verify}
use betterkey.Web.KeyService.{TdxSealRequest, TdxSealResponse, tdx_seal}
use betterkey.Web.KeyServer.{AttestationRequest, Json, KeyServer}
use betterkey.Web.Attestation.Accepted.{IsAccepted, verify-IsAccepted}
use betterkey.Web.KeyServer.Release.{get-granted}
use betterkey.Web.SealServer.{
  seal_attested, seal_succeeded, seal_request_unreadable, seal_reply, journal_seal,
  handle_tdx_seal_finalize,
}

module _ (x : Platform) (t : Quoting) (k : Toolkit) (j : Json) {S : Type 0} (s : KeyServer S) where
  -- What stands behind a sealed payload.
  pub record IsSealed (req : AttestationRequest) (nonce : Bytes) (db : S) (resp : TdxSealResponse)
      : Type 0 where
    pub json : Bytes
    pub session : AttestationRequestStore
    pub request : TdxSealRequest
    pub quote : TdxQuote
    pub stored : (s.sessions.read (store_prefix_session ++ req.session_id) db).0 ≡ ok json
    pub read_back : j.session.unmarshal json ≡ some session
    pub asked : j.unmarshal_seal_request session.payload ≡ some request
    pub accepted : IsAccepted t s.sealing_challenge_response session.nonce req.quote quote
    pub sealed : tdx_seal x k s.key_service nonce request ≡ ok resp

  journal_seal-granted :
      (r : TdxSealRequest) (id : Bytes) (db : S) (o : Result TdxSealResponse)
      {resp : TdxSealResponse}
      → (journal_seal x t k j s r id db o).answer ≡ granted resp
      → (o ≡ ok resp)
        × ((journal_seal x t k j s r id db o).journal ≡ seal_succeeded x t k j s r id ∷ [])
  journal_seal-granted r id db (ok a) e = (cc e, refl)
  journal_seal-granted r id db (err f) e = cc e
  journal_seal-granted r id db panic e = cc e

  seal_reply-granted :
      (nonce id : Bytes) (p : Answer TdxSealRequest × S) {resp : TdxSealResponse}
      → (seal_reply x t k j s nonce id p).answer ≡ granted resp
      → (r : TdxSealRequest) × (db' : S) × (p ≡ (granted r, db'))
        × (tdx_seal x k s.key_service nonce r ≡ ok resp)
        × ((seal_reply x t k j s nonce id p).journal ≡ seal_succeeded x t k j s r id ∷ [])
  seal_reply-granted nonce id (granted r, db') e =
      let (done, entry) = journal_seal-granted r id db' (tdx_seal x k s.key_service nonce r) e in
      (r, db', refl, done, entry)
  seal_reply-granted nonce id (refused f, db') e = cc e
  seal_reply-granted nonce id (crashed, db') e = cc e

  -- A payload is sealed only where the session was in the store and holds the seal request, and the
  -- quote is accepted for the session's nonce; what is sealed is that request. The journal then says
  -- that the seal request of its id succeeded.
  pub seal_release :
      (nonce : Bytes) (req : AttestationRequest) (db : S) (resp : TdxSealResponse)
      → (handle_tdx_seal_finalize x t k j s nonce (some req) db).answer ≡ granted resp
      → (r : IsSealed req nonce db resp) × ((handle_tdx_seal_finalize x t k j s nonce
            (some req)
            db).journal
          ≡ seal_succeeded x t k j s r.request req.session_id ∷ [])
  unfolding handle_tdx_seal_finalize seal_attested
  seal_release nonce req db resp e =
      let (request, db', checks, done, entry) =
        seal_reply-granted nonce req.session_id (seal_attested x t k j s req db) e in
      let (session, e0, r0) = >>=-granted (get j.session s.sessions req.session_id) _ db checks in
      let db1 : S = (get j.session s.sessions req.session_id db).1 in
      let (json, stored, read_back) = get-granted x t k j s req.session_id db session e0 in
      let (quote, e1, r1) =
        >>=-granted (verify t s.sealing_challenge_response session req.quote) _ db1 r0 in
      let db2 : S = (verify t s.sealing_challenge_response session req.quote db1).1 in
      (
        record {
          json = json;
          session = session;
          request = request;
          quote = quote;
          stored = stored;
          read_back = read_back;
          asked =
              or_refuse-granted (j.unmarshal_seal_request session.payload) seal_request_unreadable
                (ap (λ (p : Answer TdxSealRequest × S). p.0) r1);
          accepted =
              verify-IsAccepted t s.sealing_challenge_response session req.quote db1 db2 quote
                (ap (λ (a : Answer TdxQuote). (a, db2)) e1);
          sealed = done;
        },
        entry,
      )
