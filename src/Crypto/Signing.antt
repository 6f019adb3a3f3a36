-- ===== src/Crypto/Signing.antt =====
-- internal/crypto/sign.go: ECDSA signatures in DER. crypto/ecdsa and encoding/asn1 are the parameter
-- `Signer`.
use betterkey.Prelude.{ℕ, ◌≡◌, Bool, true, ◌++◌, Option, some, Bytes, str}
use betterkey.Common.Result.{Result, ok, ◌>>=◌, >>=-eq-ok}
use betterkey.Common.Services.{or_error, or_error-eq-ok}
use betterkey.Crypto.{Curve, PrivateKey, Toolkit, ecdsa}

-- The fields of `ecdsa.PublicKey`.
pub record PublicKey : Type 0 where
  pub curve : Curve
  pub x : ℕ
  pub y : ℕ

abbrev pub public_of : PrivateKey → PublicKey
public_of key = record { curve = key.curve; x = key.x; y = key.y }

pub record EcdsaSignature : Type 0 where
  pub r : ℕ
  pub s : ℕ

pub record Signer : Type 0 where
  -- `ecdsa.Sign` with its randomness, and `ecdsa.Verify`.
  pub sign : PrivateKey → Bytes → Bytes → Option EcdsaSignature
  pub verify : PublicKey → Bytes → EcdsaSignature → Bool
  -- The DER bytes of a signature, and what is read of some bytes, with those that are left.
  pub marshal : EcdsaSignature → Option Bytes
  pub unmarshal : Bytes → Option (EcdsaSignature × Bytes)

module _ (k : Toolkit) (g : Signer) where
  unfoldable pub ecdsa_sign : Bytes → PrivateKey → Bytes → Result Bytes
  ecdsa_sign draw private_key content = do
    signature ← or_error (g.sign private_key draw (k.sha256 content)) (str "signing failed")
    or_error (g.marshal signature) (str "DER encoding failed")

  -- The bytes behind the signature are not looked at.
  unfoldable pub ecdsa_verify : PublicKey → Bytes → Bytes → Result Bool
  ecdsa_verify public_key content signature_der = do
    (sig, rest) ← or_error (g.unmarshal signature_der) (str "DER decoding failed")
    ok (g.verify public_key (k.sha256 content) sig)

-- What the packages below promise: a signature verifies under the public half of the key, and DER is
-- read back, whatever follows it.
pub record IsSigning (k : Toolkit) (g : Signer) : Type 0 where
  pub verify-sign :
      (key_bytes : Bytes) (curve : Curve) (key : PrivateKey) (draw hash : Bytes)
      (signature : EcdsaSignature)
      → ecdsa k key_bytes curve ≡ ok key
      → g.sign key draw hash ≡ some signature
      → g.verify (public_of key) hash signature ≡ true
  pub unmarshal-marshal :
      (signature : EcdsaSignature) (der rest : Bytes)
      → g.marshal signature ≡ some der
      → g.unmarshal (der ++ rest) ≡ some (signature, rest)

-- A signature that is made with a derived key verifies, with any bytes behind it.
pub ecdsa_verify-ecdsa_sign :
    (k : Toolkit) (g : Signer) (laws : IsSigning k g) (key_bytes : Bytes) (curve : Curve)
    (key : PrivateKey) (draw content der rest : Bytes)
    → ecdsa k key_bytes curve ≡ ok key
    → ecdsa_sign k g draw key content ≡ ok der
    → ecdsa_verify k g (public_of key) content (der ++ rest) ≡ ok true
unfolding ecdsa_sign ecdsa_verify
ecdsa_verify-ecdsa_sign k g laws key_bytes curve key draw content der rest made e =
    let (signature, signed, e1) = >>=-eq-ok (or_error (g.sign key draw (k.sha256 content)) _) _ e in
    let sign_ok = or_error-eq-ok _ _ signed in
    let der_ok = or_error-eq-ok _ _ e1 in
    rw (
      laws.unmarshal-marshal signature der rest der_ok,
      laws.verify-sign key_bytes curve key draw (k.sha256 content) signature made sign_ok,
    )
