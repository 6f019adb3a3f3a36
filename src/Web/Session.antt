-- ===== src/Web/Session.antt =====
-- internal/web/store.go and session.go, with the session id of internal/crypto/random.go.
pub mod Keeping
use betterkey.Prelude.{
  ℕ, zero, suc, ◌+◌, ◌-◌, ◌*◌, ◌/◌, ◌%◌, Bool, true, false, List, [], ◌∷◌, ◌++◌, Option, none, some,
  Bytes, str, length, ltb, ◌==◌, if◌then◌else◌,
}
use betterkey.Common.Result.{Error, Result, ok, err, panic, failed}
use betterkey.Common.Services.{or_error}
use betterkey.Common.KeyStore.{Exec, ◌>>=◌, ◌>>◌, lift, BaseKeyStore}
use betterkey.Crypto.{Toolkit}
use betterkey.Web.Reply.{
  ErrorWithCode, new_error, unauthorized, internal_server_error, Answer, granted, refused, crashed,
  Handler, or_refuse,
}

abbrev pub store_prefix_session : Bytes
store_prefix_session = str "session:"

abbrev pub store_prefix_dev : Bytes
store_prefix_dev = str "dev:"

abbrev pub store_prefix_rsa_key : Bytes
store_prefix_rsa_key = str "rsa:"

abbrev pub key_req_session_expiry_seconds : ℕ
key_req_session_expiry_seconds = 60

-- `NamespacedKeyStore`
abbrev pub namespaced : {S : Type 0} → BaseKeyStore S → Bytes → BaseKeyStore S
namespaced store namespace = record {
  read = λ id. store.read (namespace ++ id);
  write = λ id value. store.write (namespace ++ id) value;
  write_with_ttl = λ id value ttl. store.write_with_ttl (namespace ++ id) value ttl;
  delete = λ id. store.delete (namespace ++ id);
  exists = λ id. store.exists (namespace ++ id);
  has_nil = store.has_nil;
}

unfoldable pub new_session_key_store : {S : Type 0} → BaseKeyStore S → Bool → BaseKeyStore S
new_session_key_store store dev = namespaced store (if dev then store_prefix_dev else [])

-- `api.AttestationRequestStore`
pub record AttestationRequestStore : Type 0 where
  pub nonce : Bytes
  pub payload : Bytes

-- The decimal digits of a number, which has no more of them than its value; none for zero.
unfoldable pub decimal : ℕ → ℕ → Bytes
decimal zero n = []
decimal (suc fuel) n =
    let rest = decimal fuel (n / 10) in if n == 0 then [] else rest ++ (b'0' + n % 10) ∷ []

unfoldable pub zeros : ℕ → Bytes
zeros zero = []
zeros (suc n) = b'0' ∷ zeros n

-- `%013d`
unfoldable pub padded : ℕ → Bytes
unfolding decimal zeros
padded n = zeros (13 - length (decimal n n)) ++ decimal n n

unfoldable pub generate_session_id : ℕ → Bytes → Bytes
unfolding padded
generate_session_id now uuid = padded now ++ b'.' ∷ uuid

-- `strings.Cut` at the first dot, less what is behind it.
unfoldable pub parse_session_id : Bytes → Bytes × Bool
parse_session_id [] = ([], false)
parse_session_id (c ∷ cs) =
    let (ts, found) = parse_session_id cs in if c == b'.' then ([], true) else (c ∷ ts, found)

-- The JSON of a session, by encoding/json.
pub record SessionJson : Type 0 where
  pub marshal : AttestationRequestStore → Option Bytes
  pub unmarshal : Bytes → Option AttestationRequestStore

module _ (j : SessionJson) {S : Type 0} (kv : BaseKeyStore S) where
  unfoldable pub create : Bytes → Bytes → Bytes → Exec S Bytes
  create session_id nonce payload = do
    json ← lift (or_error (j.marshal (record { nonce = nonce; payload = payload })) (str "json"))
    kv.write_with_ttl (store_prefix_session ++ session_id) json
        (some key_req_session_expiry_seconds)
    lift (ok session_id)

  unfoldable pub fetched : Result Bytes → Answer AttestationRequestStore
  fetched (ok json) =
      or_refuse (j.unmarshal json)
        (new_error (str "Failed to fetch payload from session store") internal_server_error)
  fetched (err e) =
      if kv.has_nil e
      then refused (new_error (str "Session expired or invalid") unauthorized)
      else refused (new_error (str "Failed to fetch session") internal_server_error)
  fetched panic = crashed

  unfoldable pub get : Bytes → Handler S AttestationRequestStore
  unfolding fetched
  get session_id db = let r = kv.read (store_prefix_session ++ session_id) db in (fetched r.0, r.1)

  unfoldable pub delete_session : Bytes → Exec S (Unit {0})
  delete_session session_id = kv.delete (store_prefix_session ++ session_id)

pub record VerifyResponse : Type 0 where
  pub nonce : Bytes
  pub session_id : Bytes

-- What `Init` of attestation.go draws: 64 random bytes, a UUID, and the time in milliseconds.
pub record Draw : Type 0 where
  pub nonce : Bytes
  pub uuid : Bytes
  pub now : ℕ

module _ (k : Toolkit) (j : SessionJson) {S : Type 0} (kv : BaseKeyStore S) where
  unfoldable pub init : Draw → Bytes → Exec S VerifyResponse
  unfolding create
  init d request_data = do
    session_id ← create j kv (generate_session_id d.now d.uuid) d.nonce request_data
    lift (ok (record { nonce = k.encode_base64 d.nonce; session_id = session_id }))
