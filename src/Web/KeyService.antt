-- ===== src/Web/KeyService.antt =====
-- internal/web/key_service.go: the keys that are derived from the master key, and the RSA keys that are
-- kept in the store. `DeriveECDSA` takes a length, which it does not use.
pub mod Agreement
pub mod Signing
use betterkey.Prelude.{
  ℕ, zero, suc, Bool, true, false, List, [], ◌∷◌, ◌++◌, Option, none, some, Bytes, str, ltb,
  if◌then◌else◌,
}
use betterkey.Common.Model.{Platform}
use betterkey.Common.Result.{Result, ok, err, panic, failed, ◌>>=◌}
use betterkey.Common.Services.{Vault, vault_hkdf, or_error}
use betterkey.Common.KeyStore.{Exec, lift, BaseKeyStore}
use betterkey.Crypto.{
  KeyPair, Curve, p256, p384, PrivateKey, Toolkit, x25519, rsa, ecdsa, encrypt_aes_gcm,
}
use betterkey.Web.Session.{store_prefix_rsa_key}

-- A `KeyResponse` holds a symmetric key as a text, or a key pair.
pub data Key : Type 0 where
  symmetric_key : Bytes → Key
  key_pair : KeyPair → Key

abbrev pub context_vm_boot : Bytes
context_vm_boot = str "VM_BOOT"

pub record TdxSealRequest : Type 0 where
  pub id : Bytes
  pub mrtd : Bytes
  pub cfv : Bytes
  pub payload : Bytes

pub record TdxSealResponse : Type 0 where
  pub id : Bytes
  pub sealed_payload : Bytes

pub record VaultKeyService : Type 0 where
  pub vault : Vault
  pub context_prefix : Bytes

abbrev pub new_key_gen_service : Vault → Bool → VaultKeyService
new_key_gen_service vault dev_mode = record {
  vault = vault;
  context_prefix = if dev_mode then str "dev-" else [];
}

-- The JSON of a key pair.
pub record KeyPairJson : Type 0 where
  pub marshal : KeyPair → Option Bytes
  pub unmarshal : Bytes → Option KeyPair

module _ (x : Platform) (k : Toolkit) (v : VaultKeyService) where
  unfoldable pub derive_secret : Bytes → Bytes → Bytes → Result Bytes
  derive_secret id material context =
      vault_hkdf x v.vault material (v.context_prefix ++ str "-" ++ context ++ str "-" ++ id) 32

  -- `DeriveHKDF`
  unfoldable pub derive_hkdf : Bytes → Bytes → Bytes → Result Bytes
  unfolding derive_secret
  derive_hkdf id material context = do
    hkdf ← derive_secret id material context
    ok (k.encode_base64 hkdf)

  unfoldable pub derive_x25519 : Bytes → Bytes → Bytes → Result KeyPair
  unfolding derive_secret
  derive_x25519 id material context = do key ← derive_secret id material context; x25519 k key

  unfoldable pub pem_encode_ec_key_pair : PrivateKey → Result KeyPair
  pem_encode_ec_key_pair private_key = do
    priv_bytes ← or_error (k.marshal_ec_private_key private_key) (str "x509")
    pub_bytes ← or_error (k.marshal_pkix_public_key private_key) (str "x509")
    ok (record {
      private = k.encode_base64 (k.pem_encode (str "EC PRIVATE KEY") priv_bytes);
      public = k.encode_base64 (k.pem_encode (str "PUBLIC KEY") pub_bytes);
    })

  unfoldable pub derive_ecdsa : Bytes → Bytes → Bytes → Curve → Result KeyPair
  unfolding derive_secret pem_encode_ec_key_pair
  derive_ecdsa id material context curve = do
    key ← derive_secret id material context
    private_key ← ecdsa k key curve
    pem_encode_ec_key_pair private_key

  unfoldable pub derive_seed_from_measurements : Bytes → Bytes → Bytes
  derive_seed_from_measurements mrtd cfv = k.sha256 (mrtd ++ cfv)

  -- `TDXSeal`, with the nonce that the encryption draws.
  unfoldable pub tdx_seal : Bytes → TdxSealRequest → Result TdxSealResponse
  unfolding derive_secret derive_seed_from_measurements
  tdx_seal nonce req = do
    mrtd ← or_error (k.decode_base64 req.mrtd) (str "failed to decode mrtd")
    cfv ← or_error (k.decode_base64 req.cfv) (str "failed to decode cfv")
    payload ← or_error (k.decode_base64 req.payload) (str "failed to decode payload")
    key ← derive_secret req.id (derive_seed_from_measurements mrtd cfv) context_vm_boot
    encrypted_payload ← encrypt_aes_gcm k key payload nonce
    ok (record { id = req.id; sealed_payload = encrypted_payload })

module _ (k : Toolkit) (j : KeyPairJson) {S : Type 0} (key_store : BaseKeyStore S) where
  -- The error of the write is dropped.
  abbrev after_write : KeyPair → Result (Unit {0}) × S → Result KeyPair × S
  after_write key (ok u, db) = (ok key, db)
  after_write key (err e, db) = (ok key, db)
  after_write key (panic, db) = (panic, db)

  unfoldable pub persist : Bytes → Bytes → KeyPair → Exec S KeyPair
  persist key_id json key db = after_write key (key_store.write key_id json db)

  -- A new key, with its JSON.
  unfoldable pub new_rsa : Bytes → Result (KeyPair × Bytes)
  new_rsa draw = do key ← rsa k draw; json ← or_error (j.marshal key) (str "json"); ok (key, json)

  abbrev store_new : Bytes → Result (KeyPair × Bytes) → Exec S KeyPair
  store_new key_id (ok (key, json)) db = persist key_id json key db
  store_new key_id (err e) db = (err e, db)
  store_new key_id panic db = (panic, db)

  abbrev found_rsa : Bytes → Bytes → Result Bytes × S → Result KeyPair × S
  found_rsa draw key_id (ok json, db) = (or_error (j.unmarshal json) (str "json"), db)
  found_rsa draw key_id (err e, db) =
      if key_store.has_nil e then store_new key_id (new_rsa draw) db else (err e, db)
  found_rsa draw key_id (panic, db) = (panic, db)

  unfoldable pub create_rsa : Bytes → Bytes → Exec S KeyPair
  create_rsa draw id db =
      let key_id : Bytes = store_prefix_rsa_key ++ id in
      found_rsa draw key_id (key_store.read key_id db)

  abbrev delete_if_there : Bytes → Result ℕ × S → Result (Unit {0}) × S
  delete_if_there key_id (ok zero, db) = (ok tt, db)
  delete_if_there key_id (ok (suc n), db) = key_store.delete key_id db
  delete_if_there key_id (err e, db) = (err e, db)
  delete_if_there key_id (panic, db) = (panic, db)

  unfoldable pub remove_rsa : Bytes → Exec S (Unit {0})
  remove_rsa id db =
      let key_id : Bytes = store_prefix_rsa_key ++ id in
      delete_if_there key_id (key_store.exists key_id db)
