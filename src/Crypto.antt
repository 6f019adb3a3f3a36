-- ===== src/Crypto.antt =====
-- internal/crypto/keygen.go and pkg/aes/encrypt.go. The packages below them, which do the arithmetic of
-- the curves, the ciphers and the encodings, are the parameter `Toolkit`.
pub mod Scalar
pub mod Sealing
pub mod Signing
use betterkey.Prelude.{
  ℕ, zero, suc, ◌+◌, ◌-◌, ◌*◌, ◌/◌, ◌%◌, Bool, true, false, List, [], ◌∷◌, ◌++◌, Option, none, some,
  Bytes, str, length, take, drop, ltb, ◌==◌, if◌then◌else◌,
}
use betterkey.Common.Result.{Result, ok, err, panic, failed, ◌>>=◌, ◌>>◌, check}
use betterkey.Common.Services.{or_error}

pub record KeyPair : Type 0 where
  pub private : Bytes
  pub public : Bytes

-- The curves of crypto/elliptic that have a case of their own.
pub data Curve : Type 0 where
  p256 p384 p521 other_curve : Curve

-- The fields of `ecdsa.PrivateKey`.
pub record PrivateKey : Type 0 where
  pub d : ℕ
  pub curve : Curve
  pub x : ℕ
  pub y : ℕ

pub record Toolkit : Type 0 where
  pub encode_base64 : Bytes → Bytes
  pub decode_base64 : Bytes → Option Bytes
  pub sha256 : Bytes → Bytes
  -- The order of a curve; the bytes of the public key of a private one; the same for X25519, with the
  -- bytes of the private key before them.
  pub order : Curve → ℕ
  pub new_private_key : Curve → Bytes → Option Bytes
  pub new_x25519_key : Bytes → Option (Bytes × Bytes)
  -- The PKCS1 and PKIX bytes of an RSA key, from the randomness drawn.
  pub generate_rsa : Bytes → Option (Bytes × Option Bytes)
  pub marshal_ec_private_key : PrivateKey → Option Bytes
  pub marshal_pkix_public_key : PrivateKey → Option Bytes
  pub pem_encode : Bytes → Bytes → Bytes
  -- AES-256-GCM with key, nonce and text.
  pub gcm_seal : Bytes → Bytes → Bytes → Bytes
  pub gcm_open : Bytes → Bytes → Bytes → Option Bytes

-- `big.Int.SetBytes`: big endian.
abbrev pub set_bytes_from : ℕ → Bytes → ℕ
set_bytes_from acc [] = acc
set_bytes_from acc (b ∷ bs) = set_bytes_from (acc * 256 + b) bs

abbrev pub set_bytes : Bytes → ℕ
set_bytes bs = set_bytes_from 0 bs

-- `big.Int.Bytes`: big endian, without leading zeros. A number has no more digits than its value.
unfoldable pub digits : ℕ → ℕ → Bytes
digits zero n = []
digits (suc fuel) n =
    let rest = digits fuel (n / 256) in if n == 0 then [] else rest ++ n % 256 ∷ []

abbrev pub big_bytes : ℕ → Bytes
big_bytes n = digits n n

-- Reduced to the range from 1 to n-1.
unfoldable pub scalar : Bytes → ℕ → ℕ
scalar key_bytes n = set_bytes key_bytes % (n - 1) + 1

-- The point of an uncompressed public key.
unfoldable pub private_key : ℕ → Curve → Bytes → Result PrivateKey
private_key d curve [] = err (failed (str "invalid public key format"))
private_key d curve (format ∷ coords) = do
  check (ltb 1 (length coords)) (failed (str "invalid public key format"))
  check (format == 4) (failed (str "invalid public key format"))
  check (length coords % 2 == 0) (failed (str "invalid length: coordinates must be equal size"))
  ok (record {
    d = d;
    curve = curve;
    x = set_bytes (take (length coords / 2) coords);
    y = set_bytes (drop (length coords / 2) coords);
  })

abbrev pub aes_key_size : ℕ
aes_key_size = 32

-- `aesGCM.NonceSize()`
abbrev pub nonce_size : ℕ
nonce_size = 12

module _ (k : Toolkit) where
  unfoldable pub x25519 : Bytes → Result KeyPair
  x25519 key_bytes = do
    (private, public) ← or_error (k.new_x25519_key key_bytes) (str "x25519")
    ok (record { private = k.encode_base64 private; public = k.encode_base64 public })

  unfoldable pub rsa : Bytes → Result KeyPair
  rsa draw = do
    (priv_bytes, pkix) ← or_error (k.generate_rsa draw) (str "rsa")
    pub_bytes ← or_error pkix (str "x509")
    ok (record {
      private = k.encode_base64 (k.pem_encode (str "RSA PRIVATE KEY") priv_bytes);
      public = k.encode_base64 (k.pem_encode (str "PUBLIC KEY") pub_bytes);
    })

  unfoldable pub ecdsa_on : Bytes → Curve → Result PrivateKey
  unfolding scalar
  ecdsa_on key_bytes curve = do
    let d = scalar key_bytes (k.order curve)
    pub_key_bytes ←
        or_error (k.new_private_key curve (big_bytes d)) (str "failed to create ECDH private key")
    private_key d curve pub_key_bytes

  unfoldable pub ecdsa : Bytes → Curve → Result PrivateKey
  unfolding ecdsa_on
  ecdsa key_bytes p256 = ecdsa_on key_bytes p256
  ecdsa key_bytes p384 = ecdsa_on key_bytes p384
  ecdsa key_bytes p521 = ecdsa_on key_bytes p521
  ecdsa key_bytes other_curve = err (failed (str "unsupported curve"))

  -- `EncryptAESGCM`, with the nonce that it draws.
  unfoldable pub encrypt_aes_gcm : Bytes → Bytes → Bytes → Result Bytes
  encrypt_aes_gcm key plaintext nonce = do
    check (length key == aes_key_size) (failed (str "key must be 32 bytes for AES-256"))
    ok (k.encode_base64 (nonce ++ k.gcm_seal key nonce plaintext))

  unfoldable pub decrypt_aes_gcm : Bytes → Bytes → Result Bytes
  decrypt_aes_gcm key encrypted_data = do
    check (length key == aes_key_size) (failed (str "key must be 32 bytes for AES-256"))
    data_bytes ← or_error (k.decode_base64 encrypted_data) (str "failed to decode base64")
    check (not_short (length data_bytes)) (failed (str "ciphertext too short"))
    or_error (k.gcm_open key (take nonce_size data_bytes) (drop nonce_size data_bytes))
        (str "failed to decrypt")
    where
      not_short : ℕ → Bool
      not_short n = if ltb n nonce_size then false else true
