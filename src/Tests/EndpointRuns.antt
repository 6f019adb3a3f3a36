-- ===== src/Tests/EndpointRuns.antt =====
-- The server over HTTP, on a request for a key and on one for its attestation.
use betterkey.Prelude.{
  some-injective, ◌≡◌, refl, subst, inl, inr, Bool-cases, true, List, [], ◌∷◌, ◌++◌, Option, none,
  some, Bytes, str, same, eq_of_same, All, ◌==◌, if◌then◌else◌,
}
use betterkey.Common.Hex.{encode_to_string, decode_string}
use betterkey.Common.Services.{vault_hkdf}
use betterkey.Crypto.{Toolkit}
use betterkey.Journal.{noop_journal}
use betterkey.Sgx.Report.{uint16}
use betterkey.Tdx.{new_tdx_quote, verify_quote, verify_report_data, new_event_log, verify_event_log}
use betterkey.Tests.ReportRuns.{report}
use betterkey.Tests.StartupRuns.{cluster_config}
use betterkey.Tests.TlsRuns.{issuing}
use betterkey.Tests.WebRuns.{released}
use betterkey.Tests.WebSamples.{
  Memory, platform, quoting, toolkit, json, server, request, with_session,
}
use betterkey.Web.Attestation.{verify}
use betterkey.Web.Cert.{AcmeConfig, setup}
use betterkey.Web.Cert.Retrying.{IsRun, setup-IsRun}
use betterkey.Web.Endpoint.{
  Route, routes, Mux, Codec, Attestor, Randoms, served_certs, handle_generate_attestation, handle,
  serve_http,
}
use betterkey.Web.Server.{WebServer, of_acme, acme_config}
use betterkey.Web.Endpoint.Attesting.{
  IsQuoting, IsAttestedServer, handle_generate_attestation-IsAttestedServer,
}
use betterkey.Web.Endpoint.Justified.{IsMux, IsJustified, serve_http-IsAnswered}
use betterkey.Web.Endpoint.Replies.{IsAnswered}
use betterkey.Web.Http.{
  HttpRequest, key_response, Writer, application_json, Decoded, value, eof, malformed,
  decode_request, respond_json, default_headers,
}
use betterkey.Web.KeyServer.{new_key_server, handle_key_request_finalize}
use betterkey.Web.KeyService.{derive_hkdf}
use betterkey.Web.Session.{get, delete_session}

-- The first route of the method and the path.
abbrev find_route : List (Bytes × Bytes × Route) → HttpRequest → Option Route
find_route [] req = none
find_route ((method, path, r) ∷ rs) req =
    let rest = find_route rs req in
    if same method req.method then (if same path req.path then some r else rest) else rest

abbrev mux : Mux
mux = record { find = find_route; unrouted = λ req w. w }

find_route-sound :
    (P : Bytes → Bytes → Route → Type 0) (rs : List (Bytes × Bytes × Route))
    → All (λ e. P e.0 e.1 e.2) rs
    → (req : HttpRequest) (r : Route) → find_route rs req ≡ some r
    → P req.method req.path r
find_route-sound P [] h req r e = cc e
find_route-sound P ((method, path, r') ∷ rs) (p, h) req r e =
    elim (Bool-cases (same method req.method)) [
      | inl m ↦ elim (Bool-cases (same path req.path)) [
        | inl q ↦
            let same_route : r' ≡ r = cc (rw (m, q) at e) in
            subst (λ n. P n req.path r) (eq_of_same method req.method m)
              (subst (λ n. P method n r) (eq_of_same path req.path q)
                (subst (λ n. P method path n) same_route p))
        | inr q ↦ find_route-sound P rs h req r (rw (m, q) at e)
      ]
      | inr m ↦ find_route-sound P rs h req r (rw m at e)
    ]

mux-IsMux : IsMux mux
mux-IsMux = record { sound = λ P h req r e. find_route-sound P routes h req r e }

abbrev ended : Bytes → Decoded (Unit {0})
ended [] = eof
ended (b ∷ bs) = malformed

abbrev codec : Codec
codec = record {
  decode_key_request = λ b. malformed;
  decode_attestation_request = λ b. value request [];
  decode_seal_request = λ b. malformed;
  decode_empty = ended;
  encodes = λ b. true;
}

abbrev attestor : Attestor
attestor = record {
  join_host_port = λ host port. host;
  dial = λ host name. some (name ∷ []);
  sha256 = λ b. b;
  get_remote_report = λ content. some content;
}

abbrev web_server : WebServer Memory
web_server = record {
  key_server = server;
  tls = of_acme (acme_config cluster_config) (setup (acme_config cluster_config) (λ i. true));
  journal = noop_journal;
  port = 443;
  domains = str "keys" ∷ [];
  node_host = str "b";
}

abbrev asks : Bytes → Bytes → HttpRequest
asks method path = record { method = method; path = path; server_name = []; body = [] }

abbrev randoms : Randoms
randoms = record { session = record { nonce = []; uuid = []; now = 0 }; key = []; nonce = [] }

abbrev key_written : Writer
key_written = record {
  content_type = some application_json;
  sent = some (200, some application_json);
  body = key_response (some released) true [] ∷ [];
}

serve_http-IsAnswered_example :
    IsAnswered
      (IsJustified platform quoting toolkit json codec attestor mux web_server
        (asks (str "POST") (str "/key/finalize"))
        randoms
        with_session)
      key_written
unfolding serve_http handle decode_request respond_json default_headers handle_key_request_finalize
    new_key_server get same verify new_tdx_quote verify_quote verify_report_data new_event_log
    verify_event_log encode_to_string decode_string delete_session derive_hkdf vault_hkdf
serve_http-IsAnswered_example =
    serve_http-IsAnswered platform quoting toolkit json codec attestor mux web_server mux-IsMux
      (asks (str "POST") (str "/key/finalize")) randoms with_session _ key_written refl refl

-- Base64 that leaves the bytes as they are.
abbrev plain : Toolkit
plain = record toolkit { encode_base64 = λ b. b; decode_base64 = λ b. some b }

attestor-IsQuoting : IsQuoting attestor plain issuing report
unfolding uint16
attestor-IsQuoting = record {
  padding = 0 ∷ 0 ∷ [];
  product_id = _;
  two_bytes = refl;
  verify-get = λ content quote e.
      subst
        (λ q.
          issuing.verify_remote_report q
          ≡ (record report { report_data = content ++ 0 ∷ 0 ∷ [] }, none))
        (some-injective e) refl;
  decode-encode = λ content quote e. refl;
}

handle_generate_attestation-IsAttestedServer_example :
    IsAttestedServer attestor plain web_server issuing report
      (asks (str "GET") (str "/sgx/attestation"))
      (str "keys")
      attestor-IsQuoting.padding
unfolding handle_generate_attestation served_certs
handle_generate_attestation-IsAttestedServer_example =
    handle_generate_attestation-IsAttestedServer attestor plain web_server issuing report
      attestor-IsQuoting (asks (str "GET") (str "/sgx/attestation")) with_session (str "keys") refl

abbrev patient : AcmeConfig
patient = record (acme_config cluster_config) { retry_delay = 5; retry_count = 3 }

setup-IsRun_example :
    IsRun (λ i. i == 1) patient.retry_delay patient.retry_count 0 (setup patient (λ i. i == 1))
setup-IsRun_example = setup-IsRun patient (λ i. i == 1)
