-- ===== src/Web/KeyService/Agreement.antt =====
-- A payload that is sealed for a machine, and the key that the machine gets once it attests.
use betterkey.Prelude.{◌≡◌, refl, subst, sym, ◌∙◌, some, arith, All, Bytes, length}
use betterkey.Common.Hex.{IsByte}
use betterkey.Common.Model.{Platform}
use betterkey.Common.Result.{Result, ok, >>=-eq-ok}
use betterkey.Crypto.{Toolkit, aes_key_size, nonce_size, encrypt_aes_gcm, decrypt_aes_gcm}
use betterkey.Crypto.Sealing.{IsSealing, decrypt_aes_gcm-encrypt_aes_gcm}
use betterkey.Web.KeyService.{
  TdxSealRequest, TdxSealResponse, VaultKeyService, context_vm_boot, derive_secret, derive_hkdf,
  derive_seed_from_measurements, tdx_seal,
}

encrypt-key_size :
    (k : Toolkit) (key payload nonce : Bytes) {text : Bytes}
    → encrypt_aes_gcm k key payload nonce ≡ ok text
    → length key ≡ aes_key_size
unfolding encrypt_aes_gcm
encrypt-key_size k key payload nonce e = ground arith

module _ (x : Platform) (k : Toolkit) (sealing : IsSealing k) (v : VaultKeyService) where
  -- A payload that `TDXSeal` has sealed for an id and for measurements opens with the symmetric key
  -- that is derived for the same id and the same measurements in the context VM_BOOT, and gives what
  -- the payload of the request decodes to.
  pub tdx_seal_opens :
      (nonce : Bytes) (req : TdxSealRequest) (resp : TdxSealResponse) (mrtd cfv payload : Bytes)
      → length nonce ≡ nonce_size
      → All IsByte nonce
      → All IsByte payload
      → k.decode_base64 req.mrtd ≡ some mrtd
      → k.decode_base64 req.cfv ≡ some cfv
      → k.decode_base64 req.payload ≡ some payload
      → tdx_seal x k v nonce req ≡ ok resp
      → (key : Bytes) × (derive_hkdf x k v req.id
            (derive_seed_from_measurements x k v mrtd cfv)
            context_vm_boot
          ≡ ok (k.encode_base64 key))
        × (decrypt_aes_gcm k key resp.sealed_payload ≡ ok payload)
        × (resp.id ≡ req.id)
  unfolding tdx_seal derive_hkdf
  tdx_seal_opens nonce req resp mrtd cfv payload size bytes text_bytes em ec ep e =
      let seed : Bytes = derive_seed_from_measurements x k v mrtd cfv in
      let (key, derived, rest) =
        >>=-eq-ok (derive_secret x k v req.id seed context_vm_boot) _ (rw (em, ec, ep) at e) in
      let (enc, sealed, made) = >>=-eq-ok (encrypt_aes_gcm k key payload nonce) _ rest in
      let (text, encrypted, opened) =
        (decrypt_aes_gcm-encrypt_aes_gcm k sealing key payload nonce size bytes text_bytes).0
          (encrypt-key_size k key payload nonce sealed) in
      let same_text : text ≡ resp.sealed_payload = texts (sym encrypted ∙ sealed) made in
      (
        key,
        rw derived refl,
        subst (λ b. decrypt_aes_gcm k key b ≡ ok payload) same_text opened,
        ids made,
      )
    where
      texts :
          {a b id : Bytes}
          → ◌≡◌ {A = Result Bytes} (ok a) (ok b)
          → ◌≡◌ {A = Result TdxSealResponse} (ok (record { id = id; sealed_payload = b })) (ok resp)
          → a ≡ resp.sealed_payload
      texts p q = cc (p, q)

      ids :
          {id b : Bytes}
          → ◌≡◌ {A = Result TdxSealResponse} (ok (record { id = id; sealed_payload = b })) (ok resp)
          → resp.id ≡ id
      ids q = cc q
