-- ===== src/Db.antt =====
-- internal/db/valkey.go: the key store over Valkey, with every value sealed by the vault. The client
-- library and the server are the parameter `Valkey`.
pub mod Laws
use betterkey.Prelude.{
  ℕ, Bool, true, false, List, [], ◌∷◌, ◌++◌, Option, none, some, Bytes, str, length, ltb,
  if◌then◌else◌,
}
use betterkey.Common.Result.{
  Error, Result, ok, err, panic, no_encryption_service, valkey_nil, failed,
}
use betterkey.Common.Model.{Platform}
use betterkey.Common.Services.{Vault, nil_vault, member_vault, or_error, vault_seal, vault_unseal}
use betterkey.Common.KeyStore.{Ttl, Exec, ◌>>=◌, ◌>>◌, lift, BaseKeyStore, StorageStat, KeyStore}

-- The commands that are sent: reads give a value, the error `Nil` or another error; writes change the
-- database. `itoa` and `parse_int` are strconv's.
pub record Valkey (S : Type 0) : Type 0 where
  pub hget : Bytes → Bytes → S → Result Bytes
  pub hset : Bytes → List (Bytes × Bytes) → Exec S (Unit {0})
  pub hsetnx : Bytes → Bytes → Bytes → Exec S Bool
  pub expire : Bytes → ℕ → Exec S (Unit {0})
  pub del : Bytes → Exec S (Unit {0})
  pub exists : Bytes → S → Result ℕ
  pub keys : Bytes → S → Result (List Bytes)
  pub hmget : Bytes → List Bytes → S → Result (List Bytes)
  pub itoa : ℕ → Bytes
  pub parse_int : Bytes → Option ℕ

-- The service, with what a call draws and the time at which it is made.
pub record ValKeyKeyService : Type 0 where
  pub transformer : Vault
  pub namespace : Bytes
  pub draw : Bytes
  pub now : ℕ

abbrev pub new_valkey_key_service : Bytes → Vault → Bytes → ℕ → ValKeyKeyService
new_valkey_key_service namespace transformer draw now = record {
  transformer = transformer;
  namespace = namespace ++ str ":";
  draw = draw;
  now = now;
}

module _ (x : Platform) {S : Type 0} (v : Valkey S) (s : ValKeyKeyService) where
  unfoldable pub unseal_with : Vault → Bytes → Result Bytes
  unseal_with nil_vault res = err no_encryption_service
  unseal_with (member_vault m) res = vault_unseal x (member_vault m) res

  unfoldable pub seal_with : Vault → Bytes → Result Bytes
  seal_with nil_vault value = err no_encryption_service
  seal_with (member_vault m) value = vault_seal x (member_vault m) s.draw value

  unfoldable pub read : Bytes → Exec S Bytes
  unfolding unseal_with
  read id db =
      (do
        b ← (λ t. (v.hget (s.namespace ++ id) (str "data") t, t))
        lift (unseal_with s.transformer b))
        db

  -- The fields that describe the value.
  abbrev pub describe : Bytes → List (Bytes × Bytes)
  describe sealed = (str "size", v.itoa (length sealed)) ∷ (str "modtime", v.itoa s.now) ∷ []

  unfoldable pub set_expiry : Bytes → Ttl → Exec S (Unit {0})
  set_expiry id none db = (ok tt, db)
  set_expiry id (some ttl) db = v.expire (s.namespace ++ id) ttl db

  unfoldable pub write_with_ttl : Bytes → Bytes → Ttl → Exec S (Unit {0})
  unfolding seal_with set_expiry
  write_with_ttl id value ttl = do
    sealed ← lift (seal_with s.transformer value)
    v.hset (s.namespace ++ id) ((str "data", sealed) ∷ describe sealed)
    set_expiry id ttl

  unfoldable pub write : Bytes → Bytes → Exec S (Unit {0})
  unfolding write_with_ttl
  write id value = write_with_ttl id value none

  -- The writes behind a field that was set: where one fails, `WriteNX` still says that it set it.
  unfoldable pub finish_nx : Bytes → Bytes → ℕ → Exec S (Unit {0})
  finish_nx id sealed ttl = do
    v.hset (s.namespace ++ id) (describe sealed)
    if ltb 0 ttl then v.expire (s.namespace ++ id) ttl else lift (ok tt)

  unfoldable pub with_flag : Result (Unit {0}) × S → Result (Bool × Option Error) × S
  with_flag (ok u, db) = (ok (true, none), db)
  with_flag (err e, db) = (ok (true, some e), db)
  with_flag (panic, db) = (panic, db)

  unfoldable pub acquired_or :
      Bytes → Bytes → ℕ → Result Bool × S → Result (Bool × Option Error) × S
  unfolding finish_nx with_flag
  acquired_or id sealed ttl (ok true, db) = with_flag (finish_nx id sealed ttl db)
  acquired_or id sealed ttl (ok false, db) = (ok (false, none), db)
  acquired_or id sealed ttl (err e, db) = (ok (false, some e), db)
  acquired_or id sealed ttl (panic, db) = (panic, db)

  unfoldable pub acquire : Bytes → ℕ → Result Bytes → Exec S (Bool × Option Error)
  unfolding acquired_or
  acquire id ttl (ok sealed) db =
      acquired_or id sealed ttl (v.hsetnx (s.namespace ++ id) (str "data") sealed db)
  acquire id ttl (err e) db = (ok (false, some e), db)
  acquire id ttl panic db = (panic, db)

  unfoldable pub write_nx : Bytes → Bytes → ℕ → Exec S (Bool × Option Error)
  unfolding seal_with acquire
  write_nx id value ttl db = acquire id ttl (seal_with s.transformer value) db

  unfoldable pub delete : Bytes → Exec S (Unit {0})
  delete id = v.del (s.namespace ++ id)

  unfoldable pub exists : Bytes → Exec S ℕ
  exists id db = (v.exists (s.namespace ++ id) db, db)

  -- The pattern is the prefix as it is given, without the namespace.
  unfoldable pub list : Bytes → Bool → Exec S (List Bytes)
  list prefix recursive db = (v.keys (prefix ++ str "*") db, db)

  parse_stat : List Bytes → Result StorageStat
  parse_stat (size ∷ modtime ∷ []) = elim (v.parse_int size) [
    | none ↦ err (failed (str "size field missing or invalid"))
    | some n ↦ elim (v.parse_int modtime) [
      | none ↦ err (failed (str "modtime field missing or invalid"))
      | some t ↦ ok (record { size = n; mod_time = t })
    ]
  ]
  parse_stat res = err (failed (str "expected 2 fields"))

  unfoldable pub stat : Bytes → Exec S StorageStat
  unfolding parse_stat
  stat id = do
    res ← (λ t. (v.hmget (s.namespace ++ id) (str "size" ∷ str "modtime" ∷ []) t, t))
    lift (parse_stat res)

abbrev pub has_nil : Error → Bool
has_nil valkey_nil = true
has_nil e = false

-- `*ValKeyKeyService` as a `KeyStore`.
abbrev pub key_store : Platform → {S : Type 0} → Valkey S → ValKeyKeyService → KeyStore S
key_store x v s = record {
  base = record {
    read = read x v s;
    write = write x v s;
    write_with_ttl = write_with_ttl x v s;
    delete = delete x v s;
    exists = exists x v s;
    has_nil = has_nil;
  };
  list = list x v s;
  stat = stat x v s;
  write_nx = write_nx x v s;
}
