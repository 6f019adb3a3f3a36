-- ===== src/Tests/WebSamples.antt =====
-- A key server over a store in memory, with codecs, ciphers, quotes and logs of a few lines.
use betterkey.Prelude.{
  ℕ, zero, suc, ◌≡◌, refl, ap, sym, ◌∙◌, subst, inl, inr, true, false, [], ◌∷◌, ◌++◌, Option, none,
  some, arith, All, Bytes, str, same, same_refl, eq_of_same, Bool-cases, length, take, drop,
  take-length-append, drop-length-append, ◌==◌, if◌then◌else◌,
}
use betterkey.Common.Hex.{IsByte, encode_to_string, decode_string, decode_string-encode_to_string}
use betterkey.Common.Result.{Result, ok, err, valkey_nil}
use betterkey.Common.Model.{Platform}
use betterkey.Common.Services.{member_vault}
use betterkey.Common.KeyStore.{BaseKeyStore, IsStore}
use betterkey.Crypto.{Toolkit}
use betterkey.Crypto.Scalar.{IsFixedSize, scalar_size}
use betterkey.Crypto.Sealing.{IsSealing}
use betterkey.Db.{has_nil}
use betterkey.Tdx.{
  QuoteV4, TdxQuote, efi_variable_driver_config, efi_platform_firmware_blob2, EventLog, Quoting,
  efi_secure_boot_hash,
}
use betterkey.Web.Session.{AttestationRequestStore, SessionJson}
use betterkey.Web.Session.Keeping.{IsJson}
use betterkey.Web.KeyService.{TdxSealRequest}
use betterkey.Web.KeyServer.{AttestationRequest, Json, KeyServer, new_key_server}
use betterkey.Web.KeyServer.Curves.{IsHkdf}
use betterkey.Tests.SamplePlatform.{sample}
use betterkey.Tests.StoreRuns.{member}

abbrev pub Memory : Type 0
Memory = Bytes → Option Bytes

abbrev pub or_missing : Option Bytes → Result Bytes
or_missing none = err valkey_nil
or_missing (some b) = ok b

abbrev pub set_key : Bytes → Option Bytes → Memory → Memory
set_key key value db other = if same key other then value else db other

abbrev pub memory : BaseKeyStore Memory
memory = record {
  read = λ id db. (or_missing (db id), db);
  write = λ id value db. (ok tt, set_key id (some value) db);
  write_with_ttl = λ id value ttl db. (ok tt, set_key id (some value) db);
  delete = λ id db. (ok tt, set_key id none db);
  exists = λ id db. (ok 0, db);
  has_nil = has_nil;
}

pub memory-IsStore : IsStore memory
memory-IsStore = record {
  read-write = λ id value ttl s s' e.
      ap (λ (p : Result (Unit {0}) × Memory). or_missing (p.1 id)) (sym e) ∙ rw (same_refl id);
  read-write_ne = λ id other value ttl s s' ne e.
      ap (λ (p : Result (Unit {0}) × Memory). or_missing (p.1 other)) (sym e)
      ∙ elim (Bool-cases (same id other)) [
        | inl h ↦ absurd (ne (eq_of_same id other h))
        | inr h ↦ rw h
      ];
  read-delete = λ id s s' e. (
    valkey_nil,
    ap (λ (p : Result (Unit {0}) × Memory). or_missing (p.1 id)) (sym e) ∙ rw (same_refl id),
    refl,
  );
}

abbrev pub zero_bytes : ℕ → Bytes
zero_bytes zero = []
zero_bytes (suc n) = 0 ∷ zero_bytes n

pub zero_bytes-sized : (n : ℕ) → (length (zero_bytes n) ≡ n) × All IsByte (zero_bytes n)
zero_bytes-sized zero = (refl, tt)
zero_bytes-sized (suc n) =
    let (size, bytes) = zero_bytes-sized n in (ap suc size, (omega arith, bytes))

abbrev pub platform : Platform
platform = record sample { hkdf = λ k content info n. some (zero_bytes n) }

pub platform-IsHkdf : IsHkdf platform
platform-IsHkdf = record {
  sized = λ k content info out n e.
      let p : zero_bytes n ≡ out = cc e in
      subst (λ b. (length b ≡ n) × All IsByte b) p (zero_bytes-sized n);
}

abbrev pub toolkit : Toolkit
toolkit = record {
  encode_base64 = encode_to_string;
  decode_base64 = decode_string;
  sha256 = λ b. b;
  order = λ c. 115792089210356248762697446949407573529996955224135760342422259061068512044369;
  new_private_key = λ c b. if length b == scalar_size c then some (4 ∷ (b ++ b)) else none;
  new_x25519_key = λ b. some (b, b);
  generate_rsa = λ draw. some (draw, some draw);
  marshal_ec_private_key = λ p. some (p.d ∷ []);
  marshal_pkix_public_key = λ p. some (p.x ∷ p.y ∷ []);
  pem_encode = λ label b. label ++ b;
  gcm_seal = λ key nonce content. content;
  gcm_open = λ key nonce content. some content;
}

pub toolkit-IsFixedSize : IsFixedSize toolkit
toolkit-IsFixedSize = record {
  sized = λ c b public e. elim (Bool-cases (length b == scalar_size c)) [
    | inl h ↦ ground (arith, h)
    | inr h ↦ cc (rw h at e)
  ];
  large = λ c. omega arith;
}

pub toolkit-IsSealing : IsSealing toolkit
toolkit-IsSealing = record {
  decode-encode = decode_string-encode_to_string;
  open-seal = λ key nonce content h. refl;
  seal-IsByte = λ key nonce content h. h;
}

-- Quotes and logs.
abbrev pub boot_hash : Bytes
boot_hash = elim (decode_string efi_secure_boot_hash) [ none ↦ [] | some b ↦ b ]

abbrev pub log : EventLog
log = record {
  events =
      record { type = efi_platform_firmware_blob2; event = []; digests = (9 ∷ []) ∷ [] }
      ∷ record {
        type = efi_variable_driver_config;
        event = str "SecureBoot";
        digests = boot_hash ∷ [];
      }
      ∷ [];
  replay = λ i. i ∷ [];
}

abbrev pub body : QuoteV4
body = record {
  header = record {
    version = 4;
    attestation_key_type = 2;
    tee_type = 129;
    qe_svn = [];
    pce_svn = [];
    qe_vendor_id = [];
    user_data = [];
  };
  td_quote_body = record {
    tee_tcb_svn = [];
    mr_seam = [];
    mr_signer_seam = [];
    seam_attributes = [];
    td_attributes = [];
    xfam = [];
    mr_td = 3 ∷ [];
    mr_config_id = [];
    mr_owner = [];
    mr_owner_config = [];
    rtmrs = (0 ∷ []) ∷ (1 ∷ []) ∷ (2 ∷ []) ∷ [];
    report_data = 1 ∷ 2 ∷ [];
  };
}

abbrev pub quote : TdxQuote
quote = record { raw = str "q"; parsed = body }

abbrev pub quoting : Quoting
quoting = record {
  decode_base64 = λ b. some b;
  quote_to_proto = λ b. some body;
  raw_tdx_quote = λ b. true;
  parse_event_log = λ b. some log;
  variable_name = λ b. b;
}

abbrev pub fresh_nonce : Bytes
fresh_nonce = 1 ∷ 2 ∷ []

-- The JSON of a session is its nonce, behind its length, and its payload.
abbrev pub read_session : Bytes → Option AttestationRequestStore
read_session [] = none
read_session (n ∷ r) = some (record { nonce = take n r; payload = drop n r })

abbrev pub session_json : SessionJson
session_json = record {
  marshal = λ r. some (length r.nonce ∷ (r.nonce ++ r.payload));
  unmarshal = read_session;
}

pub session_json-IsJson : IsJson session_json
session_json-IsJson = record {
  unmarshal-marshal = λ r json e.
      let p : length r.nonce ∷ (r.nonce ++ r.payload) ≡ json = cc e in
      subst (λ b. read_session b ≡ some r) p
        (rw (take-length-append r.nonce r.payload, drop-length-append r.nonce r.payload));
}

abbrev pub seal_request : Bytes → TdxSealRequest
seal_request id = record { id = id; mrtd = str "03"; cfv = str "09"; payload = str "0a0b" }

abbrev pub json : Json
json = record {
  session = session_json;
  pair = record { marshal = λ p. some p.public; unmarshal = λ b. none };
  marshal_key_request = λ r. some r.id;
  unmarshal_key_request = λ b. some (record { id = b; ctx = str "APP"; type = str "SYMMETRIC" });
  marshal_seal_request = λ r. some r.id;
  unmarshal_seal_request = λ b. some (seal_request b);
  quote_summary = λ s. some s.body.mr_td;
  event_log_summary = λ l. str "log";
}

abbrev pub server : KeyServer Memory
server =
    new_key_server
      (record {
        dev_mode = false;
        enforce_key_request_quote_verify = true;
        enforce_seal_quote_verify = true;
      })
      memory (member_vault (some member))

abbrev pub request : AttestationRequest
request = record { session_id = str "s"; quote = str "q"; event_log = str "e" }

abbrev pub with_session : Memory
with_session = set_key (str "session:s") (some (2 ∷ 1 ∷ 2 ∷ str "vm")) (λ id. none)
