-- ===== src/Web/Endpoint.antt =====
-- The routes of internal/web/server.go, and handlers.go: the server over HTTP, from a request to what is written. The
-- router of chi, TLS connections and the enclave are parameters.
pub mod Replies
pub mod Justified
pub mod Attesting
use betterkey.Prelude.{
  ℕ, Bool, true, false, not, List, [], ◌∷◌, Option, none, some, Bytes, str, length, ◌==◌,
  if◌then◌else◌,
}
use betterkey.Common.Config.{ClusterConfig}
use betterkey.Common.KeyStore.{BaseKeyStore}
use betterkey.Common.Model.{Platform}
use betterkey.Common.Services.{Vault}
use betterkey.Crypto.{Toolkit}
use betterkey.Journal.{Record, Backend, new_journal}
use betterkey.Sgx.Tls.{TlsConfig}
use betterkey.Tdx.{Quoting}
use betterkey.Web.Cert.{AcmeConfig, Managed, setup}
use betterkey.Web.Http.{
  HttpRequest, Body, verify_response, key_response, seal_response, sgx_quote, plain_text, Writer,
  new_writer, ok_status, write_header, write, respond, default_headers, Decoded, decode_request,
}
use betterkey.Web.KeyServer.{
  KeyRequest, AttestationRequest, Json, KeyServer, Reply, new_key_server, handle_key_request_init,
  handle_key_request_finalize,
}
use betterkey.Web.KeyService.{TdxSealRequest}
use betterkey.Web.Reply.{
  ErrorForm, plain_error, new_error, bad_request, internal_server_error, Answer, granted, refused,
  Handler, stay, or_refuse, ◌>>=◌,
}
use betterkey.Web.SealServer.{handle_tdx_seal_init, handle_tdx_seal_finalize}
use betterkey.Web.Server.{WebServer}
use betterkey.Web.Session.{Draw}

pub data Route : Type 0 where
  key_init key_finalize seal_init seal_finalize sgx_attestation health : Route

-- `registerRoutes`
abbrev pub routes : List (Bytes × Bytes × Route)
routes =
    (str "POST", str "/key/init", key_init)
    ∷ (str "POST", str "/key/finalize", key_finalize)
    ∷ (str "POST", str "/tdx/seal/init", seal_init)
    ∷ (str "POST", str "/tdx/seal/finalize", seal_finalize)
    ∷ (str "GET", str "/sgx/attestation", sgx_attestation)
    ∷ (str "GET", str "/health", health)
    ∷ []

-- `chi.Mux`, and what it writes where no route fits.
pub record Mux : Type 0 where
  pub find : List (Bytes × Bytes × Route) → HttpRequest → Option Route
  pub unrouted : HttpRequest → Writer → Writer

pub record Codec : Type 0 where
  pub decode_key_request : Bytes → Decoded KeyRequest
  pub decode_attestation_request : Bytes → Decoded AttestationRequest
  pub decode_seal_request : Bytes → Decoded TdxSealRequest
  pub decode_empty : Bytes → Decoded (Unit {0})
  pub encodes : Body → Bool

-- What the attestation of the server meets: the certificates that a server of an address has for a
-- name, the hash, and the enclave that makes a quote over some data.
pub record Attestor : Type 0 where
  pub join_host_port : Bytes → ℕ → Bytes
  pub dial : Bytes → Bytes → Option (List Bytes)
  pub sha256 : Bytes → Bytes
  pub get_remote_report : Bytes → Option Bytes

-- What the handlers draw.
pub record Randoms : Type 0 where
  pub session : Draw
  pub key : Bytes
  pub nonce : Bytes

-- What a handler does: what it writes, `none` where it panics, the store and the journal.
pub record Outcome (S : Type 0) : Type 0 where
  pub reply : Writer → Option Writer
  pub store : S
  pub journal : List Record

abbrev pub first_cert : List Bytes → Option Bytes
first_cert [] = none
first_cert (c ∷ cs) = some c

abbrev first_domain : Bytes → List Bytes → Bytes
first_domain server_name [] = server_name
first_domain server_name (d ∷ ds) = if length server_name == 0 then d else server_name

module _ (a : Attestor) (k : Toolkit) {S : Type 0} (s : WebServer S) where
  -- The certificate that the server has for a request.
  unfoldable pub served_certs : HttpRequest → Option (List Bytes)
  served_certs req =
      a.dial (a.join_host_port s.node_host s.port) (first_domain req.server_name s.domains)

  -- Up to the quote in base64; it does not meet the store.
  unfoldable pub handle_generate_attestation : HttpRequest → Handler S Bytes
  unfolding served_certs
  handle_generate_attestation req = do
    certs ←
        stay
          (or_refuse (served_certs req) (new_error (str "cannot connect to") internal_server_error))
    cert ← stay (
        or_refuse (first_cert certs) (new_error (str "no peer certificates") internal_server_error))
    att ← stay (
        or_refuse (a.get_remote_report (a.sha256 cert))
          (new_error (str "cannot generate quote") bad_request))
    stay (granted (k.encode_base64 att))

module _ (x : Platform) (t : Quoting) (k : Toolkit) (j : Json) (c : Codec) (a : Attestor) (m : Mux)
    {S : Type 0} (s : WebServer S) where
  abbrev pub answered : {A : Type 0} → (A → Body) → Answer A × S → Outcome S
  answered f (answer, db) = record {
    reply = respond c.encodes f plain_error answer;
    store = db;
    journal = [];
  }

  abbrev pub replied : {A : Type 0} → (A → Body) → Reply A S → Outcome S
  replied f r = record {
    reply = respond c.encodes f r.form r.answer;
    store = r.store;
    journal = r.journal;
  }

  unfoldable pub handle : Option Route → HttpRequest → Randoms → S → Outcome S
  handle (some key_init) req d db = answered verify_response (
      handle_key_request_init x t k j s.key_server d.session
        (decode_request c.decode_key_request c.decode_empty req.body) db)
  handle (some key_finalize) req d db =
      replied (λ key. key_response (some key) true [])
        (handle_key_request_finalize x t k j s.key_server d.key
          (decode_request c.decode_attestation_request c.decode_empty req.body) db)
  handle (some seal_init) req d db = answered verify_response (
      handle_tdx_seal_init x t k j s.key_server d.session
        (decode_request c.decode_seal_request c.decode_empty req.body) db)
  handle (some seal_finalize) req d db = replied seal_response (
      handle_tdx_seal_finalize x t k j s.key_server d.nonce
        (decode_request c.decode_attestation_request c.decode_empty req.body) db)
  handle (some sgx_attestation) req d db =
      answered sgx_quote (handle_generate_attestation a k s req db)
  handle (some health) req d db = record {
    reply = λ w. some (write (plain_text (str "OK")) (write_header ok_status w));
    store = db;
    journal = [];
  }
  handle none req d db = record { reply = λ w. some (m.unrouted req w); store = db; journal = [] }

  -- The middleware of the router is around every handler and the lack of one.
  unfoldable pub serve_http : HttpRequest → Randoms → S → Option Writer × S × List Record
  unfolding handle default_headers
  serve_http req d db =
      let o = handle (m.find routes req) req d db in
      (default_headers o.reply new_writer, o.store, o.journal)
