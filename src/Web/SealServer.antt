-- ===== src/Web/SealServer.antt =====
-- internal/web/seal_handlers.go, on the same server: a payload is sealed for the measurements that a
-- request names, once the machine that asks has attested.
pub mod Sealed
use betterkey.Prelude.{
  ℕ, Bool, true, false, List, [], ◌∷◌, ◌++◌, ◌||◌, not, Option, none, some, Bytes, str, length,
  ◌==◌, if◌then◌else◌,
}
use betterkey.Common.Model.{Platform}
use betterkey.Common.Result.{Error, Result, ok, err, panic, error_text}
use betterkey.Crypto.{Toolkit}
use betterkey.Journal.{Record, category_kds, type_tdx_seal, status_success, status_failure}
use betterkey.Tdx.{TdxQuote, Quoting}
use betterkey.Web.Reply.{
  ErrorWithCode, plain_error, key_error, new_error, bad_request, internal_server_error, Answer,
  granted, refused, crashed, Handler, stay, or_refuse, require_that, ◌>>=◌, ◌>>◌,
}
use betterkey.Web.Session.{VerifyResponse, Draw, get, init}
use betterkey.Web.Attestation.{verify}
use betterkey.Web.KeyService.{TdxSealRequest, TdxSealResponse, tdx_seal}
use betterkey.Web.KeyServer.{AttestationRequest, Json, KeyServer, Reply, expect_of, init_failed}

abbrev pub parameters_missing : ErrorWithCode
parameters_missing = new_error (str "Missing required parameters") bad_request

abbrev pub seal_request_unreadable : ErrorWithCode
seal_request_unreadable =
    new_error (str "Failed to unmarshal seal request from store") internal_server_error

module _ (x : Platform) (t : Quoting) (k : Toolkit) (j : Json) {S : Type 0} (s : KeyServer S) where
  unfoldable pub tdx_seal_request_init : Draw → TdxSealRequest → Handler S VerifyResponse
  tdx_seal_request_init d req = do
    stay (
        require_that (not (length req.mrtd == 0 || length req.cfv == 0 || length req.payload == 0))
          parameters_missing)
    json ← stay (
        or_refuse (j.marshal_seal_request req)
          (new_error (str "failed to marshal request data") internal_server_error))
    expect_of (init k j.session s.sessions d json) init_failed

  unfoldable pub handle_tdx_seal_init : Draw → Option TdxSealRequest → Handler S VerifyResponse
  unfolding tdx_seal_request_init
  handle_tdx_seal_init d req = do
    r ← stay (or_refuse req (new_error (str "Invalid request") bad_request))
    tdx_seal_request_init d r

  -- The checks of `handleTdxSealFinalize`. The session stays in the store.
  unfoldable pub seal_attested : AttestationRequest → Handler S TdxSealRequest
  seal_attested req = do
    record_read ← get j.session s.sessions req.session_id
    verify t s.sealing_challenge_response record_read req.quote
    stay (or_refuse (j.unmarshal_seal_request record_read.payload) seal_request_unreadable)

  -- `journalSealRequest`
  unfoldable pub seal_entry : TdxSealRequest → Bytes → Bytes → Bytes → Record
  seal_entry req session_id description status = record {
    category = category_kds;
    type = type_tdx_seal;
    resource_id = req.id;
    session_id = session_id;
    description = description;
    status = status;
    quote = [];
    quote_summary = [];
    event_log_summary = [];
    mrtd = req.mrtd;
    cfv = req.cfv;
  }

  abbrev pub seal_succeeded : TdxSealRequest → Bytes → Record
  seal_succeeded req session_id =
      seal_entry req session_id (str "Seal request succeeded") status_success

  abbrev journal_seal :
      TdxSealRequest → Bytes → S → Result TdxSealResponse → Reply TdxSealResponse S
  journal_seal req session_id db (ok resp) = record {
    answer = granted resp;
    form = plain_error;
    store = db;
    journal = seal_succeeded req session_id ∷ [];
  }
  journal_seal req session_id db (err e) = record {
    answer = refused (new_error (str "Failed to seal payload") internal_server_error);
    form = plain_error;
    store = db;
    journal =
        seal_entry req session_id (str "Seal request failed: " ++ error_text e) status_failure ∷ [];
  }
  journal_seal req session_id db panic = record {
    answer = crashed;
    form = plain_error;
    store = db;
    journal = [];
  }

  abbrev seal_reply : Bytes → Bytes → Answer TdxSealRequest × S → Reply TdxSealResponse S
  seal_reply nonce session_id (granted req, db) =
      journal_seal req session_id db (tdx_seal x k s.key_service nonce req)
  seal_reply nonce session_id (refused e, db) = record {
    answer = refused e;
    form = key_error;
    store = db;
    journal = [];
  }
  seal_reply nonce session_id (crashed, db) = record {
    answer = crashed;
    form = key_error;
    store = db;
    journal = [];
  }

  -- `nonce` is what the encryption draws.
  unfoldable pub handle_tdx_seal_finalize :
      Bytes → Option AttestationRequest → S → Reply TdxSealResponse S
  unfolding seal_attested seal_entry
  handle_tdx_seal_finalize nonce none db = record {
    answer = refused (new_error (str "Invalid request") bad_request);
    form = key_error;
    store = db;
    journal = [];
  }
  handle_tdx_seal_finalize nonce (some req) db =
      seal_reply nonce req.session_id (seal_attested req db)
