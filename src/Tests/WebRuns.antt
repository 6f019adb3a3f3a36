-- ===== src/Tests/WebRuns.antt =====
-- What the theorems on internal/web, internal/tdx and internal/crypto say of a concrete server.
use betterkey.Prelude.{
  ◌≡◌, ◌≢◌, ◌≤◌, ◌<◌, ◌⊎◌, refl, true, false, [], ◌∷◌, ◌++◌, none, some, arith, Bytes, str, length,
  ◌==◌,
}
use betterkey.Common.Hex.{encode_to_string, decode_string}
use betterkey.Common.Result.{ok, err, failed}
use betterkey.Common.Services.{vault_hkdf}
use betterkey.Common.KeyStore.{IsStore}
use betterkey.Crypto.{
  p256, PrivateKey, scalar, big_bytes, digits, private_key, ecdsa, encrypt_aes_gcm, decrypt_aes_gcm,
  aes_key_size,
}
use betterkey.Crypto.Scalar.{scalar_size, ecdsa_full_scalar}
use betterkey.Crypto.Sealing.{decrypt_aes_gcm-encrypt_aes_gcm}
use betterkey.Tdx.{verify_chain, verify_event_log}
use betterkey.Tdx.Measured.{
  HasRegisters, IsMeasured, verify_event_log-IsMeasured, verify_chain-exact,
}
use betterkey.Web.Reply.{granted, refused, crashed, new_error, unauthorized, internal_server_error}
use betterkey.Web.Session.{create, get, delete_session, new_session_key_store}
use betterkey.Web.Session.Keeping.{new_session_key_store-IsStore, get-create}
use betterkey.Web.KeyService.{
  Key, symmetric_key, TdxSealResponse, context_vm_boot, derive_hkdf, derive_seed_from_measurements,
  tdx_seal,
}
use betterkey.Web.KeyService.Agreement.{tdx_seal_opens}
use betterkey.Web.KeyServer.{new_key_server, key_request_finalize, handle_key_request_finalize}
use betterkey.Web.KeyServer.Replay.{deleted_session_refused}
use betterkey.Web.KeyServer.Curves.{p384_never_granted}
use betterkey.Tests.WebSamples.{
  Memory, set_key, memory, memory-IsStore, zero_bytes, zero_bytes-sized, platform, platform-IsHkdf,
  toolkit, toolkit-IsFixedSize, toolkit-IsSealing, log, quote, quoting, fresh_nonce, session_json,
  session_json-IsJson, seal_request, json, server, request, with_session,
}

verify_event_log-IsMeasured_example :
    (verify_event_log quoting log quote ≡ ok (9 ∷ []) → IsMeasured quoting log quote (9 ∷ []))
    × (IsMeasured quoting log quote (9 ∷ []) → verify_event_log quoting log quote ≡ ok (9 ∷ []))
verify_event_log-IsMeasured_example = verify_event_log-IsMeasured quoting log quote (9 ∷ [])

verify_chain-exact_example :
    (verify_chain quoting quote fresh_nonce (0 ∷ []) (1 ∷ []) (2 ∷ []) ≡ ok tt
      → (quoting.raw_tdx_quote quote.raw ≡ true)
        × (quote.parsed.td_quote_body.report_data ≡ fresh_nonce)
        × HasRegisters quote (0 ∷ []) (1 ∷ []) (2 ∷ []))
    × ((quoting.raw_tdx_quote quote.raw ≡ true)
          × (quote.parsed.td_quote_body.report_data ≡ fresh_nonce)
          × HasRegisters quote (0 ∷ []) (1 ∷ []) (2 ∷ [])
        → verify_chain quoting quote fresh_nonce (0 ∷ []) (1 ∷ []) (2 ∷ []) ≡ ok tt)
verify_chain-exact_example = verify_chain-exact quoting quote fresh_nonce (0 ∷ []) (1 ∷ []) (2 ∷ [])

abbrev pub released : Key
released = symmetric_key (encode_to_string (zero_bytes 32))

abbrev without_session : Memory
without_session = set_key (str "session:s") none with_session

deleted_session_refused_example :
    ((handle_key_request_finalize platform quoting toolkit json server []
        (some request)
        without_session).answer
      ≡ refused (new_error (str "Session expired or invalid") unauthorized))
    × ((handle_key_request_finalize platform quoting toolkit json server []
          (some request)
          without_session).journal
        ≡ [])
unfolding delete_session new_key_server
deleted_session_refused_example =
    deleted_session_refused platform quoting toolkit json server [] request with_session
      without_session memory-IsStore refl

p384_never_granted_example :
    ((key_request_finalize platform quoting toolkit json server []
          (str "vm")
          (str "P384")
          (str "APP")
          []
          with_session).0
        ≡ refused (new_error (str "key derivation failed") internal_server_error)
      ⊎ (key_request_finalize platform quoting toolkit json server []
          (str "vm")
          (str "P384")
          (str "APP")
          []
          with_session).0
        ≡ crashed)
    × ((key_request_finalize platform quoting toolkit json server []
          (str "vm")
          (str "P384")
          (str "APP")
          []
          with_session).1
        ≡ with_session)
p384_never_granted_example =
    p384_never_granted platform platform-IsHkdf quoting toolkit toolkit-IsFixedSize json server []
      (str "vm") (str "APP") [] with_session

abbrev sealed_response : TdxSealResponse
sealed_response = record {
  id = str "vm";
  sealed_payload = encode_to_string (zero_bytes 12 ++ (10 ∷ 11 ∷ []));
}

tdx_seal_opens_example :
    (key : Bytes) × (derive_hkdf platform toolkit server.key_service
        (str "vm")
        (derive_seed_from_measurements platform toolkit server.key_service (3 ∷ []) (9 ∷ []))
        context_vm_boot
      ≡ ok (encode_to_string key))
    × (decrypt_aes_gcm toolkit key sealed_response.sealed_payload ≡ ok (10 ∷ 11 ∷ []))
    × (sealed_response.id ≡ str "vm")
unfolding tdx_seal new_key_server decode_string vault_hkdf encrypt_aes_gcm
tdx_seal_opens_example =
    tdx_seal_opens platform toolkit toolkit-IsSealing server.key_service (zero_bytes 12)
      (seal_request (str "vm")) sealed_response (3 ∷ []) (9 ∷ []) (10 ∷ 11 ∷ []) refl
      (zero_bytes-sized 12).1 (omega arith, (omega arith, tt)) refl refl refl refl

get-create_example :
    (str "t" ≡ str "t")
    × ((get session_json memory
          (str "t")
          (set_key (str "session:t") (some (1 ∷ 7 ∷ str "x")) with_session)).0
        ≡ granted (record { nonce = 7 ∷ []; payload = str "x" }))
    × ((other : Bytes)
        → str "t" ≢ other
        → (get session_json memory other
            (set_key (str "session:t") (some (1 ∷ 7 ∷ str "x")) with_session)).0
          ≡ (get session_json memory other with_session).0)
unfolding create
get-create_example =
    get-create session_json memory memory-IsStore session_json-IsJson (str "t") (7 ∷ []) (str "x")
      (str "t") with_session (set_key (str "session:t") (some (1 ∷ 7 ∷ str "x")) with_session) refl

new_session_key_store-IsStore_example : IsStore (new_session_key_store memory true)
new_session_key_store-IsStore_example = new_session_key_store-IsStore memory true memory-IsStore

decrypt_aes_gcm-encrypt_aes_gcm_example :
    (length (zero_bytes 32) ≡ aes_key_size
      → (text : Bytes) × (encrypt_aes_gcm toolkit (zero_bytes 32) (5 ∷ []) (zero_bytes 12)
          ≡ ok text)
        × (decrypt_aes_gcm toolkit (zero_bytes 32) text ≡ ok (5 ∷ [])))
    × ((length (zero_bytes 32) == aes_key_size) ≡ false
        → (text : Bytes)
        → (encrypt_aes_gcm toolkit (zero_bytes 32) (5 ∷ []) (zero_bytes 12)
            ≡ err (failed (str "key must be 32 bytes for AES-256")))
          × (decrypt_aes_gcm toolkit (zero_bytes 32) text
              ≡ err (failed (str "key must be 32 bytes for AES-256"))))
decrypt_aes_gcm-encrypt_aes_gcm_example =
    decrypt_aes_gcm-encrypt_aes_gcm toolkit toolkit-IsSealing (zero_bytes 32) (5 ∷ [])
      (zero_bytes 12) refl (zero_bytes-sized 12).1 (omega arith, tt)

abbrev key_bytes : Bytes
key_bytes = 200 ∷ zero_bytes 31

abbrev full_key : PrivateKey
full_key = record {
  d = scalar key_bytes (toolkit.order p256);
  curve = p256;
  x = scalar key_bytes (toolkit.order p256);
  y = scalar key_bytes (toolkit.order p256);
}

ecdsa_full_scalar_example :
    (full_key.d ≡ scalar key_bytes (toolkit.order p256))
    × (1 ≤ full_key.d)
    × (full_key.d < toolkit.order p256)
    × (length (big_bytes (scalar key_bytes (toolkit.order p256))) ≡ scalar_size p256)
unfolding ecdsa scalar digits private_key
ecdsa_full_scalar_example =
    ecdsa_full_scalar toolkit toolkit-IsFixedSize key_bytes p256 full_key refl
