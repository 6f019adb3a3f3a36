-- ===== src/Web/KeyService/Signing.antt =====
-- internal/web/key_service.go: `SignWithECDSA`. Go visits the messages of the request, a map, in no
-- order of its own.
use mathlib.Core.List.{append-nil}
use betterkey.Prelude.{
  subst, ap, sym, ◌≡◌, refl, Bool, true, false, [], ◌∷◌, Option, none, some, Bytes, Dict, lookup,
  put, lookup-put, same, str, if◌then◌else◌,
}
use betterkey.Common.Model.{Platform}
use betterkey.Common.Result.{Result, ok, ◌>>=◌, >>=-eq-ok, ok-injective}
use betterkey.Common.Services.{or_error, or_error-eq-ok}
use betterkey.Crypto.{p256, PrivateKey, KeyPair, Toolkit, ecdsa}
use betterkey.Crypto.Signing.{
  Signer, IsSigning, public_of, ecdsa_sign, ecdsa_verify, ecdsa_verify-ecdsa_sign,
}
use betterkey.Web.KeyService.{VaultKeyService, derive_secret, pem_encode_ec_key_pair}

pub record SigningRequest : Type 0 where
  pub id : Bytes
  pub ctx : Bytes
  pub mrtd : Bytes
  pub messages : Dict Bytes

pub record SigningResponse : Type 0 where
  pub signatures : Dict Bytes
  pub public_key : Bytes

module _ (k : Toolkit) (g : Signer) where
  -- The randomness is drawn for each message.
  unfoldable pub sign_messages : (Bytes → Bytes) → PrivateKey → Dict Bytes → Result (Dict Bytes)
  sign_messages draws private_key [] = ok []
  sign_messages draws private_key ((msg_id, msg_base64) ∷ messages) = do
    signatures ← sign_messages draws private_key messages
    message ← or_error (k.decode_base64 msg_base64) (str "base64")
    signed ← ecdsa_sign k g (draws msg_id) private_key message
    ok (put msg_id (k.encode_base64 signed) signatures)

  module _ (x : Platform) (v : VaultKeyService) where
    unfoldable pub sign_with_ecdsa : (Bytes → Bytes) → SigningRequest → Result SigningResponse
    sign_with_ecdsa draws req = do
      mrtd ← or_error (k.decode_base64 req.mrtd) (str "base64")
      key ← derive_secret x k v req.id mrtd req.ctx
      private_key ← ecdsa k key p256
      signatures ← sign_messages draws private_key req.messages
      key_pair ← pem_encode_ec_key_pair x k v private_key
      ok (record { signatures = signatures; public_key = key_pair.public })

  -- A signature in base64 that verifies for a message in base64.
  pub record Signed (key : PrivateKey) (msg_base64 signature : Bytes) : Type 0 where
    pub message : Bytes
    pub der : Bytes
    pub decoded : k.decode_base64 msg_base64 ≡ some message
    pub encoded : signature ≡ k.encode_base64 der
    pub verifies : ecdsa_verify k g (public_of key) message der ≡ ok true

  -- The signatures answer the messages one for one.
  abbrev pub Answers : PrivateKey → Option Bytes → Option Bytes → Type 0
  Answers key none none = Unit
  Answers key none (some s) = ⊥
  Answers key (some m) none = ⊥
  Answers key (some m) (some s) = Signed key m s

module _ (k : Toolkit) (g : Signer) (laws : IsSigning k g) (key_bytes : Bytes) where
  Signed-ecdsa_sign :
      (draw msg_base64 message der : Bytes) (key : PrivateKey)
      → ecdsa k key_bytes p256 ≡ ok key
      → k.decode_base64 msg_base64 ≡ some message
      → ecdsa_sign k g draw key message ≡ ok der
      → Signed k g key msg_base64 (k.encode_base64 der)
  Signed-ecdsa_sign draw msg_base64 message der key made decoded signed = record {
    message = message;
    der = der;
    decoded = decoded;
    encoded = refl;
    verifies =
        subst (λ t. ecdsa_verify k g (public_of key) message t ≡ ok true) (append-nil der)
          (ecdsa_verify-ecdsa_sign k g laws key_bytes p256 key draw message der [] made signed);
  }

  Answers-if :
      (key : PrivateKey) (found : Bool) (m s : Bytes) (later earlier : Option Bytes)
      → Signed k g key m s
      → Answers k g key later earlier
      → Answers k g key (if found then some m else later) (if found then some s else earlier)
  Answers-if key true m s later earlier one rest = one
  Answers-if key false m s later earlier one rest = rest

  sign_messages-Answers :
      (draws : Bytes → Bytes) (key : PrivateKey) (messages : Dict Bytes) (signatures : Dict Bytes)
      → ecdsa k key_bytes p256 ≡ ok key
      → sign_messages k g draws key messages ≡ ok signatures
      → (msg_id : Bytes) → Answers k g key (lookup msg_id messages) (lookup msg_id signatures)
  unfolding sign_messages lookup
  sign_messages-Answers draws key [] signatures made e msg_id =
      subst (λ t. Answers k g key none (lookup msg_id t)) (ok-injective e) tt
  sign_messages-Answers draws key ((id, msg_base64) ∷ messages) signatures made e msg_id =
      let (rest, all, e1) = >>=-eq-ok (sign_messages k g draws key messages) _ e in
      let (message, decoded, e2) = >>=-eq-ok (or_error (k.decode_base64 msg_base64) _) _ e1 in
      let (der, signed, e3) = >>=-eq-ok (ecdsa_sign k g (draws id) key message) _ e2 in
      let one =
        Signed-ecdsa_sign (draws id) msg_base64 message der key made (or_error-eq-ok _ _ decoded)
          signed in
      subst (λ t. Answers k g key (lookup msg_id ((id, msg_base64) ∷ messages)) (lookup msg_id t))
        (ok-injective e3)
        (rw (lookup-put id msg_id (k.encode_base64 der) rest) (
          Answers-if key (same id msg_id) msg_base64 (k.encode_base64 der) _ _ one
            (sign_messages-Answers draws key messages rest made all msg_id)))

-- What a response to a request is: the key, derived from the measurement, the context and the id of
-- the request alone, its encoding, and a signature for each message and for no other id.
pub record IsAnswer (k : Toolkit) (g : Signer) (x : Platform) (v : VaultKeyService)
    (req : SigningRequest) (resp : SigningResponse) : Type 0 where
  pub mrtd : Bytes
  pub derived : Bytes
  pub key : PrivateKey
  pub pair : KeyPair
  pub decoded : k.decode_base64 req.mrtd ≡ some mrtd
  pub secret : derive_secret x k v req.id mrtd req.ctx ≡ ok derived
  pub made : ecdsa k derived p256 ≡ ok key
  pub encoded : pem_encode_ec_key_pair x k v key ≡ ok pair
  pub shown : resp.public_key ≡ pair.public
  pub answers :
      (msg_id : Bytes)
      → Answers k g key (lookup msg_id req.messages) (lookup msg_id resp.signatures)

-- A request that is answered has a key on P-256 that is derived from its measurement, its context and
-- its id alone. For every message of the request, and for no other id, the response has a signature
-- that verifies for what the message decodes to, and its public key is the encoding of that key.
pub sign_with_ecdsa-IsAnswer :
    (k : Toolkit) (g : Signer) (laws : IsSigning k g) (x : Platform) (v : VaultKeyService)
    (draws : Bytes → Bytes) (req : SigningRequest) (resp : SigningResponse)
    → sign_with_ecdsa k g x v draws req ≡ ok resp
    → IsAnswer k g x v req resp
unfolding sign_with_ecdsa
sign_with_ecdsa-IsAnswer k g laws x v draws req resp e =
    let (mrtd, decoded, e1) = >>=-eq-ok (or_error (k.decode_base64 req.mrtd) _) _ e in
    let (derived, secret, e2) = >>=-eq-ok (derive_secret x k v req.id mrtd req.ctx) _ e1 in
    let (key, made, e3) = >>=-eq-ok (ecdsa k derived p256) _ e2 in
    let (signatures, all, e4) = >>=-eq-ok (sign_messages k g draws key req.messages) _ e3 in
    let (pair, encoded, e5) = >>=-eq-ok (pem_encode_ec_key_pair x k v key) _ e4 in
    let answer = ok-injective e5 in
    record {
      mrtd = mrtd;
      derived = derived;
      key = key;
      pair = pair;
      decoded = or_error-eq-ok _ _ decoded;
      secret = secret;
      made = made;
      encoded = encoded;
      shown = ap (λ (r : SigningResponse). r.public_key) (sym answer);
      answers = λ msg_id.
          subst
            (λ (r : SigningResponse).
              Answers k g key (lookup msg_id req.messages) (lookup msg_id r.signatures))
            answer
            (sign_messages-Answers k g laws derived draws key req.messages signatures made all
              msg_id);
    }
