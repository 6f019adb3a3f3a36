-- ===== src/Web/KeyServer.antt =====
-- internal/web/key_handlers.go, on a server as server.go makes it. A request is what
-- `decodeRequest` makes of the body, `none` where it is refused. A handler gives its answer, the
-- store, and the journal entries that it starts to write.
pub mod Release
pub mod Replay
pub mod Curves
pub mod Completing
pub mod Sharing
pub use betterkey.Web.Requests.{KeyRequest, AttestationRequest, Json, Attested}
use betterkey.Prelude.{
  ℕ, Bool, true, false, List, [], ◌∷◌, ◌++◌, Option, none, some, Bytes, str, same, not, length,
  ◌==◌, if◌then◌else◌,
}
use betterkey.Common.Model.{Platform}
use betterkey.Common.Result.{Error, Result, ok, err, panic}
use betterkey.Common.Services.{Vault}
use betterkey.Common.KeyStore.{Exec, BaseKeyStore}
use betterkey.Crypto.{KeyPair, p256, p384, Toolkit}
use betterkey.Tdx.{TdxQuote, EventLog, Quoting, new_event_log, verify_event_log}
use betterkey.Tdx.Summary.{QuoteSummary, summary, summary_json}
use betterkey.Journal.{Record, category_kds, type_key_request, status_success, status_failure}
use betterkey.Web.Reply.{
  ErrorWithCode, ErrorForm, plain_error, key_error, new_error, bad_request, unauthorized,
  internal_server_error, Answer, granted, refused, crashed, Handler, stay, or_refuse, expect,
  require_that, ◌>>=◌, ◌>>◌,
}
use betterkey.Web.Session.{
  AttestationRequestStore, SessionJson, VerifyResponse, Draw, get, init, delete_session,
  new_session_key_store,
}
use betterkey.Web.Attestation.{Protocol, verify}
use betterkey.Web.KeyService.{
  Key, symmetric_key, key_pair, KeyPairJson, TdxSealRequest, TdxSealResponse, VaultKeyService,
  new_key_gen_service, derive_hkdf, derive_x25519, derive_ecdsa, create_rsa,
  derive_seed_from_measurements, tdx_seal,
}

-- The settings of the configuration that the handlers depend on.
pub record ServerConfig : Type 0 where
  pub dev_mode : Bool
  pub enforce_key_request_quote_verify : Bool
  pub enforce_seal_quote_verify : Bool

pub record KeyServer (S : Type 0) : Type 0 where
  pub sessions : BaseKeyStore S
  pub key_service : VaultKeyService
  pub challenge_response : Protocol
  pub sealing_challenge_response : Protocol

-- `NewKeyServer`, less the wiring of net/http. The session store and the key service share a store.
unfoldable pub new_key_server : {S : Type 0} → ServerConfig → BaseKeyStore S → Vault → KeyServer S
unfolding new_session_key_store
new_key_server config kv_store vault = record {
  sessions = new_session_key_store kv_store config.dev_mode;
  key_service = new_key_gen_service vault config.dev_mode;
  challenge_response = record {
    dev_mode = false;
    enforce_quote_verify = config.enforce_key_request_quote_verify;
  };
  sealing_challenge_response = record {
    dev_mode = config.dev_mode;
    enforce_quote_verify = config.enforce_seal_quote_verify;
  };
}

-- An answer, and the form in which it is written if it is refused.
pub record Reply (A S : Type 0) : Type 0 where
  pub answer : Answer A
  pub form : ErrorForm
  pub store : S
  pub journal : List Record

abbrev pub request_unreadable : ErrorWithCode
request_unreadable =
    new_error (str "Failed to unmarshal key request from store") internal_server_error

abbrev pub id_missing : ErrorWithCode
id_missing = new_error (str "Missing id") bad_request

-- The code answers with the text of the error of the event log, which is not told apart here.
abbrev pub log_refused : ErrorWithCode
log_refused = new_error (str "event log") unauthorized

abbrev pub init_failed : ErrorWithCode
init_failed = new_error (str "init verify request failed") internal_server_error

-- A call on the store whose error is answered with a code.
abbrev pub expect_of : {S A : Type 0} → Exec S A → ErrorWithCode → Handler S A
expect_of m e db = let r = m db in (expect r.0 e, r.1)

-- The result of `Delete` is only logged.
abbrev forget : {S : Type 0} → Result (Unit {0}) × S → Answer (Unit {0}) × S
forget (ok u, db) = (granted tt, db)
forget (err e, db) = (granted tt, db)
forget (panic, db) = (crashed, db)

module _ (x : Platform) (t : Quoting) (k : Toolkit) (j : Json) {S : Type 0} (s : KeyServer S) where
  unfoldable pub key_request_init : Draw → KeyRequest → Handler S VerifyResponse
  key_request_init d req = do
    stay (
        require_that (not (length req.type == 0))
          (new_error (str "Invalid request parameters") bad_request))
    stay (
        require_that (not (length req.id == 0))
          (new_error (str "Invalid request parameters") bad_request))
    json ← stay (
        or_refuse (j.marshal_key_request req)
          (new_error (str "failed to marshal request data") internal_server_error))
    expect_of (init k j.session s.sessions d json) init_failed

  unfoldable pub handle_key_request_init : Draw → Option KeyRequest → Handler S VerifyResponse
  unfolding key_request_init
  handle_key_request_init d req = do
    r ← stay (or_refuse req (new_error (str "Invalid request") bad_request))
    key_request_init d r

  abbrev of_pair : Result KeyPair → Result Key
  of_pair (ok p) = ok (key_pair p)
  of_pair (err e) = err e
  of_pair panic = panic

  abbrev of_text : Result Bytes → Result Key
  of_text (ok b) = ok (symmetric_key b)
  of_text (err e) = err e
  of_text panic = panic

  -- The switch on the type; `none` for a type without a case. `draw` is the randomness of an RSA key.
  unfoldable pub derive_key : Bytes → Bytes → Bytes → Bytes → Bytes → Option (Exec S Key)
  derive_key draw id key_type ctx seed =
      if same key_type (str "SYMMETRIC")
      then some (λ db. (of_text (derive_hkdf x k s.key_service id seed ctx), db))
      else if same key_type (str "X25519")
      then some (λ db. (of_pair (derive_x25519 x k s.key_service id seed ctx), db))
      else if same key_type (str "P256")
      then some (λ db. (of_pair (derive_ecdsa x k s.key_service id seed ctx p256), db))
      else if same key_type (str "P384")
      then some (λ db. (of_pair (derive_ecdsa x k s.key_service id seed ctx p384), db))
      else if same key_type (str "RSA")
      then some (λ db. let r = create_rsa k j.pair s.sessions draw id db in (of_pair r.0, r.1))
      else none

  unfoldable pub key_request_finalize : Bytes → Bytes → Bytes → Bytes → Bytes → Handler S Key
  unfolding derive_key
  key_request_finalize draw id key_type ctx seed = do
    derive ← stay (
        or_refuse (derive_key draw id key_type ctx seed)
          (new_error (str "invalid key type") bad_request))
    expect_of derive (new_error (str "key derivation failed") internal_server_error)

  abbrev pub close_session : Bytes → Handler S (Unit {0})
  close_session session_id db = forget (delete_session j.session s.sessions session_id db)

  -- The checks of `handleKeyRequestFinalize`.
  unfoldable pub attested : AttestationRequest → Handler S Attested
  attested req = do
    record_read ← get j.session s.sessions req.session_id
    key_request ← stay (or_refuse (j.unmarshal_key_request record_read.payload) request_unreadable)
    stay (require_that (not (length key_request.id == 0)) id_missing)
    quote ← verify t s.challenge_response record_read req.quote
    event_log ← stay (expect (new_event_log t req.event_log) log_refused)
    cfv ← stay (expect (verify_event_log t event_log quote) log_refused)
    close_session req.session_id
    stay (
        granted (record {
          request = key_request;
          quote = quote;
          event_log = event_log;
          seed =
              derive_seed_from_measurements x k s.key_service quote.parsed.td_quote_body.mr_td cfv;
        }))

  -- `journalKeyRequest`, for what was attested.
  unfoldable pub key_entry : Attested → AttestationRequest → Bytes → Bytes → Record
  unfolding summary_json summary
  key_entry a req description status = record {
    category = category_kds;
    type = type_key_request;
    resource_id = a.request.id;
    session_id = req.session_id;
    description = description;
    status = status;
    quote = req.quote;
    quote_summary = summary_json j.quote_summary (summary a.quote);
    event_log_summary = j.event_log_summary a.event_log;
    mrtd = [];
    cfv = [];
  }

  abbrev pub key_succeeded : Attested → AttestationRequest → Record
  key_succeeded a req = key_entry a req (str "Key request succeeded") status_success

  abbrev journal_key : Attested → AttestationRequest → Answer Key × S → Reply Key S
  journal_key a req (granted key, db) = record {
    answer = granted key;
    form = plain_error;
    store = db;
    journal = key_succeeded a req ∷ [];
  }
  journal_key a req (refused e, db) = record {
    answer = refused e;
    form = plain_error;
    store = db;
    journal = key_entry a req (str "Key request failed: " ++ e.message) status_failure ∷ [];
  }
  journal_key a req (crashed, db) = record {
    answer = crashed;
    form = plain_error;
    store = db;
    journal = [];
  }

  abbrev release : Bytes → AttestationRequest → Answer Attested × S → Reply Key S
  release draw req (granted a, db) =
      journal_key a req
        (key_request_finalize draw a.request.id a.request.type a.request.ctx a.seed db)
  release draw req (refused e, db) = record {
    answer = refused e;
    form = key_error;
    store = db;
    journal = [];
  }
  release draw req (crashed, db) = record {
    answer = crashed;
    form = key_error;
    store = db;
    journal = [];
  }

  unfoldable pub handle_key_request_finalize : Bytes → Option AttestationRequest → S → Reply Key S
  unfolding attested key_request_finalize key_entry
  handle_key_request_finalize draw none db = record {
    answer = refused (new_error (str "Invalid Request") bad_request);
    form = key_error;
    store = db;
    journal = [];
  }
  handle_key_request_finalize draw (some req) db = release draw req (attested req db)
