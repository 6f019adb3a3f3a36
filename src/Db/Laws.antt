-- ===== src/Db/Laws.antt =====
-- The store over Valkey as a key store, what is relied on of the commands, and a lock that is
-- held.
use betterkey.Prelude.{
  ℕ, suc, ◌≡◌, ◌≢◌, inl, inr, true, false, List, ◌++◌, none, some, arith, Bytes, Option-cases, str,
  lookup,
}
use betterkey.Common.Hex.{decode_string}
use betterkey.Common.Result.{Result, ok, err, valkey_nil}
use betterkey.Common.Model.{Member, MasterSecret, Platform}
use betterkey.Common.Laws.{IsLawful}
use betterkey.Common.Services.{member_vault, vault_seal, vault_unseal}
use betterkey.Db.{Valkey, ValKeyKeyService, seal_with, unseal_with, acquire, acquired_or, write_nx}

-- What the program relies on of the commands, where they return without an error.
pub record IsValkey {S : Type 0} (v : Valkey S) : Type 0 where
  pub hget-hset :
      (key field value : Bytes) (fields : List (Bytes × Bytes)) (db db' : S)
      → v.hset key fields db ≡ (ok tt, db')
      → lookup field fields ≡ some value
      → v.hget key field db' ≡ ok value
  pub hget-hset_other :
      (key field : Bytes) (fields : List (Bytes × Bytes)) (db db' : S)
      → v.hset key fields db ≡ (ok tt, db')
      → lookup field fields ≡ none
      → v.hget key field db' ≡ v.hget key field db
  pub hget-hset_ne :
      (key other field : Bytes) (fields : List (Bytes × Bytes)) (db db' : S)
      → v.hset key fields db ≡ (ok tt, db')
      → key ≢ other
      → v.hget other field db' ≡ v.hget other field db
  pub hget-expire :
      (key other field : Bytes) (ttl : ℕ) (db db' : S)
      → v.expire key (suc ttl) db ≡ (ok tt, db')
      → v.hget other field db' ≡ v.hget other field db
  pub hget-del :
      (key field : Bytes) (db db' : S)
      → v.del key db ≡ (ok tt, db')
      → v.hget key field db' ≡ err valkey_nil
  -- The field was not there, and is there now.
  pub hget-hsetnx :
      (key field value : Bytes) (db db' : S)
      → v.hsetnx key field value db ≡ (ok true, db')
      → (v.hget key field db ≡ err valkey_nil) × (v.hget key field db' ≡ ok value)
  -- A field that is there is not set again.
  pub hsetnx-held :
      (key field value held : Bytes) (db : S)
      → v.hget key field db ≡ ok held
      → v.hsetnx key field value db ≡ (ok false, db)

-- The secret of the member, decoded.
pub record IsKeyed (m : Member) : Type 0 where
  pub secret : MasterSecret
  pub key : Bytes
  pub keyed : m.master_secret ≡ some secret
  pub decodes : decode_string secret.secret ≡ some key

module _ (x : Platform) (lawful : IsLawful x) {S : Type 0} (v : Valkey S) (valkey : IsValkey v)
    (s : ValKeyKeyService) (m : Member) (keyed : IsKeyed m)
    (has_vault : s.transformer ≡ member_vault (some m)) where
  pub unseal_with-seal_with :
      (value sealed : Bytes)
      → seal_with x v s s.transformer value ≡ ok sealed
      → unseal_with x v s s.transformer sealed ≡ ok value
  unfolding seal_with unseal_with vault_seal vault_unseal
  unseal_with-seal_with value sealed e = elim (Option-cases (x.encrypt s.draw value keyed.key)) [
    | inl bad ↦ ground (arith, has_vault, keyed.keyed, keyed.decodes, bad)
    | inr (c, good) ↦ ground (
      arith,
      has_vault,
      keyed.keyed,
      keyed.decodes,
      good,
      lawful.decrypt-encrypt s.draw value keyed.key c good,
    )
  ]

  -- A lock that `WriteNX` has taken, without an error or with one from the writes behind it, is held:
  -- another `WriteNX` for the same key answers that it is not free, as long as the field is there.
  pub write_nx_held :
      (id value held : Bytes) (ttl : ℕ) (db : S) (sealed : Bytes)
      → seal_with x v s s.transformer value ≡ ok sealed
      → v.hget (s.namespace ++ id) (str "data") db ≡ ok held
      → write_nx x v s id value ttl db ≡ (ok (false, none), db)
  unfolding write_nx acquire acquired_or
  write_nx_held id value held ttl db sealed e h =
      rw (e, acquire, valkey.hsetnx-held (s.namespace ++ id) (str "data") sealed held db h)
