-- ===== src/Common/Services.antt =====
-- internal/common/services.go: the vault operations of a member, and the interface value `Vault`.
use betterkey.Prelude.{ℕ, ◌≡◌, Option, none, some, Bytes, str}
use betterkey.Common.Hex.{decode_string}
use betterkey.Common.Result.{Result, ok, err, panic, failed, ◌>>=◌}
use betterkey.Common.Model.{Member, Platform}

-- A library call that fails with a message of its own.
abbrev pub or_error {ℓ} : {A : Type ℓ} → Option A → Bytes → Result A
or_error none message = err (failed message)
or_error (some a) message = ok a

pub or_error-eq-ok {ℓ} :
    {A : Type ℓ} (o : Option A) (message : Bytes) {a : A} → or_error o message ≡ ok a → o ≡ some a
or_error-eq-ok none message e = cc e
or_error-eq-ok (some a) message e = cc e

-- `m.MasterSecret.Secret`: a nil pointer on the way is a run-time panic.
abbrev pub deref {ℓ} : {A : Type ℓ} → Option A → Result A
deref none = panic
deref (some a) = ok a

abbrev pub key_bytes : Member → Result Bytes
key_bytes m = do s ← deref m.master_secret; or_error (decode_string s.secret) (str "hex")

module _ (x : Platform) where
  unfoldable pub member_seal : Member → Bytes → Bytes → Result Bytes
  member_seal m draw content = do
    k ← key_bytes m
    or_error (x.encrypt draw content k) (str "encrypt")

  unfoldable pub member_unseal : Member → Bytes → Result Bytes
  member_unseal m content = do k ← key_bytes m; or_error (x.decrypt content k) (str "decrypt")

  unfoldable pub member_hkdf : Member → Bytes → Bytes → ℕ → Result Bytes
  member_hkdf m content info length = do
    k ← key_bytes m
    or_error (x.hkdf k content info length) (str "hkdf")

-- A value of the interface `Vault`: nil, or a `*Member`, which may itself be nil. An interface that
-- holds a nil pointer is not equal to nil.
pub data Vault : Type 0 where
  nil_vault : Vault
  member_vault : Option Member → Vault

module _ (x : Platform) where
  unfoldable pub vault_seal : Vault → Bytes → Bytes → Result Bytes
  unfolding member_seal
  vault_seal nil_vault draw content = panic
  vault_seal (member_vault none) draw content = panic
  vault_seal (member_vault (some m)) draw content = member_seal x m draw content

  unfoldable pub vault_unseal : Vault → Bytes → Result Bytes
  unfolding member_unseal
  vault_unseal nil_vault content = panic
  vault_unseal (member_vault none) content = panic
  vault_unseal (member_vault (some m)) content = member_unseal x m content

  unfoldable pub vault_hkdf : Vault → Bytes → Bytes → ℕ → Result Bytes
  unfolding member_hkdf
  vault_hkdf nil_vault content info length = panic
  vault_hkdf (member_vault none) content info length = panic
  vault_hkdf (member_vault (some m)) content info length = member_hkdf x m content info length
