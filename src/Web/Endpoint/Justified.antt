-- ===== src/Web/Endpoint/Justified.antt =====
-- What stands behind each response of the server, over all its routes.
use betterkey.Prelude.{
  some-injective, ℕ, ◌≡◌, ◌⊎◌, refl, subst, inl, inr, true, false, [], ◌∷◌, none, some, Bytes, str,
  All, Option-cases,
}
use betterkey.Common.Model.{Platform}
use betterkey.Crypto.{Toolkit}
use betterkey.Tdx.{Quoting}
use betterkey.Web.Endpoint.{
  Route, key_init, key_finalize, seal_init, seal_finalize, sgx_attestation, health, routes, Mux,
  Codec, Attestor, Randoms, handle, handle_generate_attestation, serve_http,
}
use betterkey.Web.Server.{WebServer}
use betterkey.Web.Endpoint.Attesting.{IsOwnQuote, granted-IsOwnQuote}
use betterkey.Web.Endpoint.Replies.{IsHarmless, IsAnswered, ready, respond-IsAnswered}
use betterkey.Web.Http.{
  HttpRequest, Body, verify_response, key_response, seal_response, sgx_quote, error_message,
  plain_text, Writer, ok_status, default_headers, decode_request,
}
use betterkey.Web.KeyServer.{AttestationRequest, Json, key_succeeded, handle_key_request_finalize}
use betterkey.Web.KeyServer.Release.{IsReleased, key_release}
use betterkey.Web.KeyService.{Key, TdxSealResponse}
use betterkey.Web.Reply.{granted, plain_error}
use betterkey.Web.SealServer.{seal_succeeded, handle_tdx_seal_finalize}
use betterkey.Web.SealServer.Sealed.{IsSealed, seal_release}

-- What is relied on of the router: the route that it finds is one of those that are registered for the
-- method and the path of the request, so that whatever holds of all of them holds of it.
pub record IsMux (m : Mux) : Type 1 where
  pub sound :
      (P : Bytes → Bytes → Route → Type 0)
      → All (λ e. P e.0 e.1 e.2) routes
      → (req : HttpRequest) (r : Route) → m.find routes req ≡ some r
      → P req.method req.path r

abbrev method_of : Route → Bytes
method_of key_init = str "POST"
method_of key_finalize = str "POST"
method_of seal_init = str "POST"
method_of seal_finalize = str "POST"
method_of sgx_attestation = str "GET"
method_of health = str "GET"

abbrev path_of : Route → Bytes
path_of key_init = str "/key/init"
path_of key_finalize = str "/key/finalize"
path_of seal_init = str "/tdx/seal/init"
path_of seal_finalize = str "/tdx/seal/finalize"
path_of sgx_attestation = str "/sgx/attestation"
path_of health = str "/health"

-- A request for a method and a path.
pub record IsFor (method path : Bytes) (req : HttpRequest) : Type 0 where
  pub with_method : req.method ≡ method
  pub with_path : req.path ≡ path

found-IsFor :
    (m : Mux) (mux : IsMux m) (req : HttpRequest) (r : Route)
    → m.find routes req ≡ some r
    → IsFor (method_of r) (path_of r) req
found-IsFor m mux req r e =
    let (with_method, with_path) =
      mux.sound (λ method path r. (method ≡ method_of r) × (path ≡ path_of r))
        (
          (refl, refl),
          ((refl, refl), ((refl, refl), ((refl, refl), ((refl, refl), ((refl, refl), tt))))),
        )
        req r e in
    record { with_method = with_method; with_path = with_path }

module _ (x : Platform) (t : Quoting) (k : Toolkit) (j : Json) (c : Codec) (a : Attestor) (m : Mux)
    {S : Type 0} (s : WebServer S) where
  pub record IsKeyRelease (req : HttpRequest) (d : Randoms) (db : S) (key : Key) : Type 0 where
    pub request : AttestationRequest
    pub for : IsFor (str "POST") (str "/key/finalize") req
    pub decoded : decode_request c.decode_attestation_request c.decode_empty req.body ≡ some request
    pub released : IsReleased x t k j s.key_server request d.key db key
    pub journaled :
        (serve_http x t k j c a m s req d db).2
        ≡ key_succeeded x t k j s.key_server released.shown request ∷ []

  pub record IsPayloadRelease (req : HttpRequest) (d : Randoms) (db : S) (resp : TdxSealResponse)
      : Type 0 where
    pub request : AttestationRequest
    pub for : IsFor (str "POST") (str "/tdx/seal/finalize") req
    pub decoded : decode_request c.decode_attestation_request c.decode_empty req.body ≡ some request
    pub released : IsSealed x t k j s.key_server request d.nonce db resp
    pub journaled :
        (serve_http x t k j c a m s req d db).2
        ≡ seal_succeeded x t k j s.key_server released.request request.session_id ∷ []

  -- What stands behind a body of a code.
  pub IsJustified : HttpRequest → Randoms → S → ℕ → Body → Type 0
  IsJustified req d db code (verify_response v) =
      (code ≡ ok_status)
      × (IsFor (str "POST") (str "/key/init") req ⊎ IsFor (str "POST") (str "/tdx/seal/init") req)
  IsJustified req d db code (key_response none verified message) = verified ≡ false
  IsJustified req d db code (key_response (some key) verified message) =
      (code ≡ ok_status) × IsKeyRelease req d db key
  IsJustified req d db code (seal_response resp) =
      (code ≡ ok_status) × IsPayloadRelease req d db resp
  IsJustified req d db code (sgx_quote text) =
      (code ≡ ok_status)
      × IsFor (str "GET") (str "/sgx/attestation") req
      × IsOwnQuote a k s req text
  IsJustified req d db code (error_message message) = Unit
  IsJustified req d db code (plain_text message) = Unit

  harmless : (req : HttpRequest) (d : Randoms) (db : S) → IsHarmless (IsJustified req d db)
  unfolding IsJustified
  harmless req d db = record {
    error = λ code message. tt;
    text = λ code message. tt;
    refusal = λ code message. refl;
  }

  key_finalize-IsKeyRelease :
      (req : HttpRequest) (d : Randoms) (db : S) (key : Key)
      → m.find routes req ≡ some key_finalize
      → IsFor (str "POST") (str "/key/finalize") req
      → (handle_key_request_finalize x t k j s.key_server d.key
          (decode_request c.decode_attestation_request c.decode_empty req.body)
          db).answer
        ≡ granted key
      → IsKeyRelease req d db key
  unfolding serve_http handle handle_key_request_finalize
  key_finalize-IsKeyRelease req d db key found for e =
      elim (Option-cases (decode_request c.decode_attestation_request c.decode_empty req.body)) [
        | inl h ↦ cc (rw h at e)
        | inr (request, h) ↦
            let (released, journal) =
              key_release x t k j s.key_server d.key request db key (rw h at e) in
            record {
              request = request;
              for = for;
              decoded = h;
              released = released;
              journaled = rw (found, h) journal;
            }
      ]

  seal_finalize-IsPayloadRelease :
      (req : HttpRequest) (d : Randoms) (db : S) (resp : TdxSealResponse)
      → m.find routes req ≡ some seal_finalize
      → IsFor (str "POST") (str "/tdx/seal/finalize") req
      → (handle_tdx_seal_finalize x t k j s.key_server d.nonce
          (decode_request c.decode_attestation_request c.decode_empty req.body)
          db).answer
        ≡ granted resp
      → IsPayloadRelease req d db resp
  unfolding serve_http handle handle_tdx_seal_finalize
  seal_finalize-IsPayloadRelease req d db resp found for e =
      elim (Option-cases (decode_request c.decode_attestation_request c.decode_empty req.body)) [
        | inl h ↦ cc (rw h at e)
        | inr (request, h) ↦
            let (released, journal) =
              seal_release x t k j s.key_server d.nonce request db resp (rw h at e) in
            record {
              request = request;
              for = for;
              decoded = h;
              released = released;
              journaled = rw (found, h) journal;
            }
      ]

  handle-IsAnswered :
      (req : HttpRequest) (d : Randoms) (db : S) (r : Route) (v : Writer)
      → m.find routes req ≡ some r
      → IsFor (method_of r) (path_of r) req
      → (handle x t k j c a m s (some r) req d db).reply ready ≡ some v
      → IsAnswered (IsJustified req d db) v
  unfolding handle IsJustified
  handle-IsAnswered req d db key_init v found for e =
      respond-IsAnswered c.encodes _ (harmless req d db) verify_response plain_error _ v
        (λ resp h. (refl, inl for)) e
  handle-IsAnswered req d db key_finalize v found for e =
      respond-IsAnswered c.encodes _ (harmless req d db) (λ key. key_response (some key) true []) _
        _ v (λ key h. (refl, key_finalize-IsKeyRelease req d db key found for h)) e
  handle-IsAnswered req d db seal_init v found for e =
      respond-IsAnswered c.encodes _ (harmless req d db) verify_response plain_error _ v
        (λ resp h. (refl, inr for)) e
  handle-IsAnswered req d db seal_finalize v found for e =
      respond-IsAnswered c.encodes _ (harmless req d db) seal_response _ _ v
        (λ resp h. (refl, seal_finalize-IsPayloadRelease req d db resp found for h)) e
  handle-IsAnswered req d db sgx_attestation v found for e =
      respond-IsAnswered c.encodes _ (harmless req d db) sgx_quote plain_error
        (handle_generate_attestation a k s req db).0 v
        (λ text h. (refl, for, granted-IsOwnQuote a k s req db text h)) e
  handle-IsAnswered req d db health v found for e =
      subst (IsAnswered (IsJustified req d db)) (some-injective e)
        (record { code = ok_status; part = _; sent = refl; body = refl; holds = tt })

  -- A response of the server to a request that one of its routes fits has one code, which is sent for
  -- JSON, and one body. A nonce, a key, a sealed payload and a quote go out with the code 200 alone. A
  -- nonce goes to a POST of /key/init or /tdx/seal/init. A key goes to a POST of /key/finalize whose
  -- body decodes to a request that is attested, and the journal gets its success; a sealed payload in
  -- the same way to a POST of /tdx/seal/finalize. A quote goes to a GET of /sgx/attestation and is over
  -- the certificate that the server has for the request. A key response without a key is not verified.
  pub serve_http-IsAnswered :
      (mux : IsMux m) (req : HttpRequest) (d : Randoms) (db : S) (r : Route) (v : Writer)
      → m.find routes req ≡ some r
      → (serve_http x t k j c a m s req d db).0 ≡ some v
      → IsAnswered (IsJustified req d db) v
  unfolding serve_http handle default_headers
  serve_http-IsAnswered mux req d db r v found e =
      handle-IsAnswered req d db r v found (found-IsFor m mux req r found) (rw found at e)
