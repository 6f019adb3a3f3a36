-- ===== src/Web/CertStorage/Locking.antt =====
-- Who may take the lock of a certificate, and who may give it up, over the store of internal/db.
use betterkey.Prelude.{ℕ, ◌≢◌, List, Bytes}
use betterkey.Common.Result.{Result, err, valkey_nil}
use betterkey.Db.{Valkey, ValKeyKeyService}

-- HSET and EXPIRE reply a number, never Nil.
pub record IsNeverNil {S : Type 0} (v : Valkey S) : Type 0 where
  pub hset :
      (key : Bytes) (fields : List (Bytes × Bytes)) (db : S)
      → (v.hset key fields db).0 ≢ err valkey_nil
  pub expire : (key : Bytes) (ttl : ℕ) (db : S) → (v.expire key ttl db).0 ≢ err valkey_nil

-- The service in another call: what is drawn and the time differ.
abbrev pub other_call : ValKeyKeyService → Bytes → ℕ → ValKeyKeyService
other_call s draw now = record s { draw = draw; now = now }
