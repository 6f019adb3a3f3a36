-- ===== src/Web/KeyServer/Sharing.antt =====
-- The keys of a cluster: nodes with one master secret give one and the same key.
use betterkey.Prelude.{◌≡◌, some, Bytes}
use betterkey.Common.Model.{Member, Platform}
use betterkey.Common.Services.{member_vault}
use betterkey.Crypto.{Toolkit}
use betterkey.Web.KeyService.{VaultKeyService}

module _ (x : Platform) (k : Toolkit) (m m' : Member) (shared : m.master_secret ≡ m'.master_secret)
    (prefix : Bytes) where
  abbrev service : Member → VaultKeyService
  service member = record { vault = member_vault (some member); context_prefix = prefix }
