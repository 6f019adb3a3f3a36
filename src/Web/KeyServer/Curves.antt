-- ===== src/Web/KeyServer/Curves.antt =====
-- Requests for a key on P-384, with what is relied on of HKDF and of crypto/ecdh.
use betterkey.Prelude.{ℕ, ◌≡◌, ◌≢◌, refl, inl, inr, ◌⊎◌, none, some, All, Bytes, str, same, length}
use betterkey.Common.Hex.{IsByte}
use betterkey.Common.Model.{Platform}
use betterkey.Common.Result.{ok, >>=-eq-ok, Result-cases}
use betterkey.Common.Services.{
  Vault, nil_vault, member_vault, vault_hkdf, member_hkdf, key_bytes, or_error-eq-ok,
}
use betterkey.Crypto.{KeyPair, p384, Toolkit, ecdsa}
use betterkey.Crypto.Scalar.{IsFixedSize, ecdsa_p384_never}
use betterkey.Tdx.{Quoting}
use betterkey.Web.Reply.{refused, crashed, internal_server_error, new_error}
use betterkey.Web.KeyService.{VaultKeyService, derive_secret, derive_ecdsa}
use betterkey.Web.KeyServer.{Json, KeyServer, derive_key, key_request_finalize}

-- HKDF gives as many bytes as are asked for.
pub record IsHkdf (x : Platform) : Type 0 where
  pub sized :
      (k content info out : Bytes) (n : ℕ)
      → x.hkdf k content info n ≡ some out
      → (length out ≡ n) × All IsByte out

vault_hkdf-sized :
    (x : Platform) (hkdf : IsHkdf x) (v : Vault) (content info : Bytes) (n : ℕ) {out : Bytes}
    → vault_hkdf x v content info n ≡ ok out
    → (length out ≡ n) × All IsByte out
unfolding vault_hkdf member_hkdf
vault_hkdf-sized x hkdf nil_vault content info n e = cc e
vault_hkdf-sized x hkdf (member_vault none) content info n e = cc e
vault_hkdf-sized x hkdf (member_vault (some m)) content info n e =
    let (k, got, rest) = >>=-eq-ok (key_bytes m) _ e in
    hkdf.sized k content info _ n (or_error-eq-ok (x.hkdf k content info n) _ rest)

derive_ecdsa-never :
    (x : Platform) (hkdf : IsHkdf x) (k : Toolkit) (fixed : IsFixedSize k) (v : VaultKeyService)
    (id seed ctx : Bytes) (pair : KeyPair)
    → derive_ecdsa x k v id seed ctx p384 ≢ ok pair
unfolding derive_ecdsa derive_secret
derive_ecdsa-never x hkdf k fixed v id seed ctx pair e =
    let (key, derived, rest) = >>=-eq-ok (derive_secret x k v id seed ctx) _ e in
    let (private, made, rest') = >>=-eq-ok (ecdsa k key p384) _ rest in
    let (size, bytes) = vault_hkdf-sized x hkdf v.vault seed _ 32 derived in
    ecdsa_p384_never k fixed key private bytes size made

-- A request for a key on P-384 is never granted, whoever asks: it ends with the code 500, or with a
-- panic, and leaves the store alone.
pub p384_never_granted :
    (x : Platform) (hkdf : IsHkdf x) (t : Quoting) (k : Toolkit) (fixed : IsFixedSize k) (j : Json)
    {S : Type 0} (s : KeyServer S) (draw id ctx seed : Bytes) (db : S)
    → ((key_request_finalize x t k j s draw id (str "P384") ctx seed db).0
          ≡ refused (new_error (str "key derivation failed") internal_server_error)
        ⊎ (key_request_finalize x t k j s draw id (str "P384") ctx seed db).0 ≡ crashed)
      × ((key_request_finalize x t k j s draw id (str "P384") ctx seed db).1 ≡ db)
unfolding key_request_finalize derive_key same
p384_never_granted x hkdf t k fixed j s draw id ctx seed db =
    elim (Result-cases (derive_ecdsa x k s.key_service id seed ctx p384)) [
      | inl (pair, e) ↦ absurd (derive_ecdsa-never x hkdf k fixed s.key_service id seed ctx pair e)
      | inr (inl (f, e)) ↦ (inl (rw e refl), refl)
      | inr (inr e) ↦ (inr (rw e refl), refl)
    ]
