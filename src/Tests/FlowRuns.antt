-- ===== src/Tests/FlowRuns.antt =====
-- A machine that asks for a key, attests and gets it.
use betterkey.Prelude.{
  some-injective, ◌≡◌, refl, true, false, subst, [], ◌∷◌, ◌++◌, none, some, Bytes, str, same,
  take-length-append, drop-length-append, ap,
}
use betterkey.Common.Hex.{encode_to_string, decode_string}
use betterkey.Common.Model.{Member}
use betterkey.Tests.StoreRuns.{member}
use betterkey.Tdx.{new_tdx_quote, new_event_log, verify_event_log}
use betterkey.Tdx.Measured.{verify_event_log-IsMeasured}
use betterkey.Web.KeyServer.{
  KeyRequest, Json, ServerConfig, new_key_server, handle_key_request_init,
  handle_key_request_finalize, key_request_finalize, AttestationRequest,
}
use betterkey.Web.KeyServer.Completing.{IsHonest, handle_key_request_finalize-completes}
use betterkey.Web.KeyService.{derive_seed_from_measurements}
use betterkey.Web.Session.{
  Draw, VerifyResponse, init, generate_session_id, create, get, delete_session,
}
use betterkey.Tests.TlsRuns.{with_length, field, behind}
use betterkey.Tests.WebSamples.{
  Memory, set_key, memory-IsStore, platform, toolkit, log, quote, quoting, fresh_nonce,
  session_json-IsJson, server, json,
}

abbrev write_request : KeyRequest → Bytes
write_request r = with_length r.id (with_length r.ctx r.type)

abbrev read_request : Bytes → KeyRequest
read_request b = record { id = field b; ctx = field (behind b); type = behind (behind b) }

read_request-write_request : (r : KeyRequest) → read_request (write_request r) ≡ r
read_request-write_request r =
    rw
      (
        take-length-append r.id (with_length r.ctx r.type),
        drop-length-append r.id (with_length r.ctx r.type),
        take-length-append r.ctx r.type,
        drop-length-append r.ctx r.type,
      )
      refl

abbrev codec : Json
codec = record json {
  marshal_key_request = λ r. some (write_request r);
  unmarshal_key_request = λ b. some (read_request b);
}

codec-reads :
    (r : KeyRequest) (text : Bytes)
    → codec.marshal_key_request r ≡ some text
    → codec.unmarshal_key_request text ≡ some r
codec-reads r text e =
    subst (λ b. codec.unmarshal_key_request b ≡ some r) (some-injective e)
      (ap some (read_request-write_request r))

abbrev draw : Draw
draw = record { nonce = fresh_nonce; uuid = str "u"; now = 17 }

abbrev wish : KeyRequest
wish = record { id = str "vm"; ctx = str "APP"; type = str "SYMMETRIC" }

abbrev session_id : Bytes
session_id = generate_session_id 17 (str "u")

abbrev told : VerifyResponse
told = record { nonce = encode_to_string fresh_nonce; session_id = session_id }

abbrev key : Bytes
key = str "session:" ++ session_id

abbrev begun : Memory
begun = set_key key (some (2 ∷ (fresh_nonce ++ write_request wish))) (λ id. none)

abbrev ended : Memory
ended = set_key key none begun

abbrev answer : AttestationRequest
answer = record { session_id = session_id; quote = str "q"; event_log = str "e" }

answer-IsHonest : IsHonest quoting fresh_nonce answer quote log (9 ∷ [])
unfolding new_tdx_quote new_event_log verify_event_log same encode_to_string decode_string
answer-IsHonest = record {
  raw = str "q";
  present = refl;
  decoded = refl;
  parsed = refl;
  signed = refl;
  fresh = refl;
  logged = refl;
  measured = (verify_event_log-IsMeasured quoting log quote (9 ∷ [])).0 refl;
}

handle_key_request_finalize-completes_example :
    ((handle_key_request_finalize platform quoting toolkit codec server []
        (some answer)
        begun).answer
      ≡ (key_request_finalize platform quoting toolkit codec server []
          (str "vm")
          (str "SYMMETRIC")
          (str "APP")
          (derive_seed_from_measurements platform toolkit server.key_service (3 ∷ []) (9 ∷ []))
          ended).0)
    × ((handle_key_request_finalize platform quoting toolkit codec server []
          (some answer)
          begun).store
        ≡ (key_request_finalize platform quoting toolkit codec server []
            (str "vm")
            (str "SYMMETRIC")
            (str "APP")
            (derive_seed_from_measurements platform toolkit server.key_service (3 ∷ []) (9 ∷ []))
            ended).1)
unfolding handle_key_request_init init create get delete_session new_key_server encode_to_string
    decode_string
handle_key_request_finalize-completes_example =
    handle_key_request_finalize-completes platform quoting toolkit codec server [] draw wish told
      (λ id. none) begun ended fresh_nonce answer quote log (9 ∷ []) memory-IsStore
      session_json-IsJson codec-reads refl refl refl refl answer-IsHonest refl

-- The member of another node.
abbrev other_member : Member
other_member = record member { node_info = some (record { id = str "z"; cluster_id = str "c" }) }

abbrev settings : ServerConfig
settings = record {
  dev_mode = false;
  enforce_key_request_quote_verify = true;
  enforce_seal_quote_verify = true;
}
