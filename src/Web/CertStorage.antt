-- ===== src/Web/CertStorage.antt =====
-- internal/web/cert/cert_storage.go: the certificates of the server and their lock, in the key store
-- that all nodes share.
pub mod Locking
use betterkey.Prelude.{
  ℕ, zero, suc, Bool, true, false, Option, none, some, Bytes, same, if◌then◌else◌, List,
}
use betterkey.Common.Result.{Error, Result, ok, err, panic, not_exist}
use betterkey.Common.KeyStore.{Exec, BaseKeyStore, KeyStore, StorageStat}

abbrev pub lock_ttl_seconds : ℕ
lock_ttl_seconds = 300

-- The information that `Stat` gives.
pub record KeyInfo : Type 0 where
  pub key : Bytes
  pub modified : ℕ
  pub size : ℕ
  pub is_terminal : Bool

-- How a round of the loop of `Lock` ends: it returns, or it waits.
pub data LockRound : Type 0 where
  locked : LockRound
  lock_failed : Error → LockRound
  waits : LockRound

module _ {S : Type 0} (client : KeyStore S) (node_id : Bytes) where
  abbrev unless_nil : Result (Unit {0}) → Result (Unit {0})
  unless_nil (ok u) = ok u
  unless_nil (err e) = if client.has_nil e then ok tt else err e
  unless_nil panic = panic

  -- `Store`
  unfoldable pub store_cert : Bytes → Bytes → Exec S (Unit {0})
  store_cert key value db = let r = client.write key value db in (unless_nil r.0, r.1)

  abbrev loaded : Result Bytes → Result Bytes
  loaded (ok b) = ok b
  loaded (err e) = if client.has_nil e then err not_exist else err e
  loaded panic = panic

  -- `Load`
  unfoldable pub load_cert : Bytes → Exec S Bytes
  load_cert key db = let r = client.read key db in (loaded r.0, r.1)

  abbrev is_there : Result ℕ → Result Bool
  is_there (ok zero) = ok false
  is_there (ok (suc n)) = ok true
  is_there (err e) = ok false
  is_there panic = panic

  unfoldable pub cert_exists : Bytes → Exec S Bool
  cert_exists key db = let r = client.exists key db in (is_there r.0, r.1)

  unfoldable pub delete_cert : Bytes → Exec S (Unit {0})
  delete_cert key = client.delete key

  unfoldable pub list_certs : Bytes → Bool → Exec S (List Bytes)
  list_certs prefix recursive = client.list prefix recursive

  abbrev info_of : Bytes → Result StorageStat → Result KeyInfo
  info_of key (ok stat) =
      ok (record { key = key; modified = stat.mod_time; size = stat.size; is_terminal = true })
  info_of key (err e) = err e
  info_of key panic = panic

  unfoldable pub stat_cert : Bytes → Exec S KeyInfo
  stat_cert key db = let r = client.stat key db in (info_of key r.0, r.1)

  abbrev round_of : Result (Bool × Option Error) → Result LockRound
  round_of (ok (true, none)) = ok locked
  round_of (ok (false, none)) = ok waits
  round_of (ok (true, some e)) = if client.has_nil e then ok locked else ok (lock_failed e)
  round_of (ok (false, some e)) = if client.has_nil e then ok waits else ok (lock_failed e)
  round_of (err e) = ok (lock_failed e)
  round_of panic = panic

  -- One round of the loop of `Lock`.
  unfoldable pub lock_round : Bytes → Exec S LockRound
  lock_round key db = let r = client.write_nx key node_id lock_ttl_seconds db in (round_of r.0, r.1)

  abbrev drop_result : Result (Unit {0}) × S → Result (Unit {0}) × S
  drop_result (ok u, db) = (ok tt, db)
  drop_result (err e, db) = (ok tt, db)
  drop_result (panic, db) = (panic, db)

  abbrev is_not_exist : Error → Bool
  is_not_exist not_exist = true
  is_not_exist e = false

  abbrev unlock_held : Bytes → Result Bytes × S → Result (Unit {0}) × S
  unlock_held key (ok val, db) =
      if same val node_id then drop_result (delete_cert key db) else (ok tt, db)
  unlock_held key (err e, db) = if is_not_exist e then (ok tt, db) else (err e, db)
  unlock_held key (panic, db) = (panic, db)

  unfoldable pub unlock : Bytes → Exec S (Unit {0})
  unfolding load_cert delete_cert
  unlock key db = unlock_held key (load_cert key db)
