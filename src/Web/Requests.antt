-- ===== src/Web/Requests.antt =====
-- pkg/api/model.go: the requests for keys, the JSON of what is sent and stored, and what a request comes
-- to once it is attested.
use betterkey.Prelude.{Option, Bytes}
use betterkey.Tdx.{TdxQuote, EventLog}
use betterkey.Tdx.Summary.{QuoteSummary}
use betterkey.Web.Session.{SessionJson}
use betterkey.Web.KeyService.{KeyPairJson, TdxSealRequest}

-- `api.KeyRequest`; the type and the context are strings.
pub record KeyRequest : Type 0 where
  pub id : Bytes
  pub ctx : Bytes
  pub type : Bytes

pub record AttestationRequest : Type 0 where
  pub session_id : Bytes
  pub quote : Bytes
  pub event_log : Bytes

-- The JSON of the requests, the sessions, the key pairs and the summaries; that of an event log is made
-- by the package that parses it.
pub record Json : Type 0 where
  pub session : SessionJson
  pub pair : KeyPairJson
  pub marshal_key_request : KeyRequest → Option Bytes
  pub unmarshal_key_request : Bytes → Option KeyRequest
  pub marshal_seal_request : TdxSealRequest → Option Bytes
  pub unmarshal_seal_request : Bytes → Option TdxSealRequest
  pub quote_summary : QuoteSummary → Option Bytes
  pub event_log_summary : EventLog → Bytes

-- What the checks of `handleKeyRequestFinalize` come to: the key request of the session, the quote and
-- the event log, and the seed of the key.
pub record Attested : Type 0 where
  pub request : KeyRequest
  pub quote : TdxQuote
  pub event_log : EventLog
  pub seed : Bytes
