-- ===== src/Crypto/Sealing.antt =====
-- The round trip of AES-GCM, and what is relied on of the packages below.
use betterkey.Prelude.{
  ℕ, ◌≡◌, subst, false, ◌++◌, some, arith, All, All-append, Bytes, str, length, length-append, take,
  drop, take-length-append, drop-length-append, ◌==◌,
}
use betterkey.Common.Hex.{IsByte}
use betterkey.Common.Result.{ok, err, failed}
use betterkey.Crypto.{Toolkit, aes_key_size, nonce_size, encrypt_aes_gcm, decrypt_aes_gcm}

-- What the codec and the cipher promise.
pub record IsSealing (k : Toolkit) : Type 0 where
  pub decode-encode :
      (content : Bytes)
      → All IsByte content
      → k.decode_base64 (k.encode_base64 content) ≡ some content
  pub open-seal :
      (key nonce content : Bytes)
      → length key ≡ aes_key_size
      → k.gcm_open key nonce (k.gcm_seal key nonce content) ≡ some content
  pub seal-IsByte :
      (key nonce content : Bytes) → All IsByte content → All IsByte (k.gcm_seal key nonce content)

take-exact : (n : ℕ) (nonce rest : Bytes) → length nonce ≡ n → take n (nonce ++ rest) ≡ nonce
take-exact n nonce rest e =
    subst (λ m. take m (nonce ++ rest) ≡ nonce) e (take-length-append nonce rest)

drop-exact : (n : ℕ) (nonce rest : Bytes) → length nonce ≡ n → drop n (nonce ++ rest) ≡ rest
drop-exact n nonce rest e =
    subst (λ m. drop m (nonce ++ rest) ≡ rest) e (drop-length-append nonce rest)

-- With a key of 32 bytes and a nonce of 12 bytes, encryption succeeds, and what it returns decrypts to
-- the text; with a key of any other length both refuse.
pub decrypt_aes_gcm-encrypt_aes_gcm :
    (k : Toolkit) (sealing : IsSealing k) (key plaintext nonce : Bytes)
    → length nonce ≡ nonce_size
    → All IsByte nonce
    → All IsByte plaintext
    → (length key ≡ aes_key_size
        → (text : Bytes) × (encrypt_aes_gcm k key plaintext nonce ≡ ok text)
          × (decrypt_aes_gcm k key text ≡ ok plaintext))
      × ((length key == aes_key_size) ≡ false
          → (text : Bytes)
          → (encrypt_aes_gcm k key plaintext nonce
              ≡ err (failed (str "key must be 32 bytes for AES-256")))
            × (decrypt_aes_gcm k key text ≡ err (failed (str "key must be 32 bytes for AES-256"))))
unfolding encrypt_aes_gcm decrypt_aes_gcm
decrypt_aes_gcm-encrypt_aes_gcm k sealing key plaintext nonce size bytes text_bytes = (
  λ full.
      let sealed : Bytes = k.gcm_seal key nonce plaintext in
      (
        k.encode_base64 (nonce ++ sealed),
        ground (arith, full),
        ground (
          arith,
          full,
          sealing.decode-encode (nonce ++ sealed) (
              All-append IsByte nonce sealed bytes
                (sealing.seal-IsByte key nonce plaintext text_bytes)),
          length-append nonce sealed,
          size,
          take-exact nonce_size nonce sealed size,
          drop-exact nonce_size nonce sealed size,
          sealing.open-seal key nonce plaintext full,
        ),
      ),
  λ short text. (rw short, rw short),
)
