-- ===== src/Web/KeyServer/Replay.antt =====
-- A second request with the session of a first.
use betterkey.Prelude.{◌≡◌, some, Bytes, str, []}
use betterkey.Common.Model.{Platform}
use betterkey.Common.Result.{ok}
use betterkey.Common.KeyStore.{IsStore}
use betterkey.Crypto.{Toolkit}
use betterkey.Tdx.{Quoting}
use betterkey.Web.Reply.{refused, new_error, unauthorized}
use betterkey.Web.Session.{delete_session}
use betterkey.Web.Session.Keeping.{get-deleted}
use betterkey.Web.KeyServer.{
  AttestationRequest, Json, KeyServer, attested, handle_key_request_finalize,
}

-- Once the session of a request is deleted without an error, a request with that session is refused with
-- the code 401, whatever its quote and its event log are, and nothing is derived or journalled.
pub deleted_session_refused :
    (x : Platform) (t : Quoting) (k : Toolkit) (j : Json) {S : Type 0} (s : KeyServer S)
    (draw : Bytes) (req : AttestationRequest) (db db' : S)
    → IsStore s.sessions
    → delete_session j.session s.sessions req.session_id db ≡ (ok tt, db')
    → ((handle_key_request_finalize x t k j s draw (some req) db').answer
        ≡ refused (new_error (str "Session expired or invalid") unauthorized))
      × ((handle_key_request_finalize x t k j s draw (some req) db').journal ≡ [])
unfolding handle_key_request_finalize attested
deleted_session_refused x t k j s draw req db db' store e =
    let gone = get-deleted j.session s.sessions store req.session_id db db' e in (rw gone, rw gone)
