-- ===== src/Tests/StoreRuns.antt =====
-- A Valkey server as a function from keys and fields, a key file on the disk, and what the theorems on
-- internal/db and internal/sgx say of them.
use betterkey.Prelude.{
  ◌≡◌, refl, ap, sym, ◌∙◌, inl, inr, Bool, true, false, List, [], ◌∷◌, Option, none, some, arith,
  Bytes, str, same, same_iff, same_refl, eq_of_same, lookup, contains, if◌then◌else◌, Bool-cases,
}
use betterkey.Common.Hex.{encode_to_string, decode_string, decode_string-encode_to_string}
use betterkey.Common.Result.{Result, ok, err, valkey_nil}
use betterkey.Common.Model.{NodeInfo, MasterSecret, Member}
use betterkey.Common.Laws.{IsAscii, IsAsciiInfo}
use betterkey.Common.Set.Order.{SameElements}
use betterkey.Common.Services.{member_vault}
use betterkey.Common.Set.{Set}
use betterkey.Sgx.KeyStore.{absent, holding, MasterKeyStore, new_masterkey_store, load, read, write}
use betterkey.Sgx.KeyStore.Durable.{written_member, read-write, read-write_cached}
use betterkey.Db.{Valkey, ValKeyKeyService, new_valkey_key_service, key_store}
use betterkey.Db.Laws.{IsValkey}
use betterkey.Web.CertStorage.{lock_round}
use betterkey.Tests.SamplePlatform.{sample, sample-IsLawful}

abbrev pub Table : Type 0
Table = Bytes → Bytes → Option Bytes

abbrev pub or_nil : Option Bytes → Result Bytes
or_nil none = err valkey_nil
or_nil (some b) = ok b

abbrev overlay : Option Bytes → Option Bytes → Option Bytes
overlay none old = old
overlay (some b) old = some b

unfoldable pub set_fields : Bytes → List (Bytes × Bytes) → Table → Table
set_fields key fields db k f = if same key k then overlay (lookup f fields) (db k f) else db k f

abbrev set_absent : Bytes → Bytes → Bytes → Table → Option Bytes → Result Bool × Table
set_absent key field value db none = (ok true, set_fields key ((field, value) ∷ []) db)
set_absent key field value db (some b) = (ok false, db)

abbrev pub table : Valkey Table
table = record {
  hget = λ key field db. or_nil (db key field);
  hset = λ key fields db. (ok tt, set_fields key fields db);
  hsetnx = λ key field value db. set_absent key field value db (db key field);
  expire = λ key ttl db. (ok tt, db);
  del = λ key db. (ok tt, λ k f. if same key k then none else db k f);
  exists = λ key db. ok 0;
  keys = λ pattern db. ok [];
  hmget = λ key fields db. ok [];
  itoa = λ n. n ∷ [];
  parse_int = λ b. none;
}

set_absent-held :
    (key field value held : Bytes) (db : Table) (o : Option Bytes)
    → or_nil o ≡ ok held
    → set_absent key field value db o ≡ (ok false, db)
set_absent-held key field value held db none e = cc e
set_absent-held key field value held db (some b) e = refl

set_absent-set :
    (key field value : Bytes) (db db' : Table) (o : Option Bytes)
    → set_absent key field value db o ≡ (ok true, db')
    → (or_nil o ≡ err valkey_nil) × (set_fields key ((field, value) ∷ []) db ≡ db')
set_absent-set key field value db db' none e = (refl, ap (λ (t : Result Bool × Table). t.1) e)
set_absent-set key field value db db' (some b) e = cc (ap (λ (t : Result Bool × Table). t.0) e)

set_fields-one :
    (key field value : Bytes) (db : Table)
    → set_fields key ((field, value) ∷ []) db key field ≡ some value
unfolding set_fields lookup
set_fields-one key field value db = rw (same_refl key, same_refl field)

pub table-IsValkey : IsValkey table
unfolding set_fields
table-IsValkey = record {
  hget-hset = λ key field value fields db db' e l.
      ap (λ (t : Result (Unit {0}) × Table). or_nil (t.1 key field)) (sym e)
      ∙ rw (same_refl key, l);
  hget-hset_other = λ key field fields db db' e l.
      ap (λ (t : Result (Unit {0}) × Table). or_nil (t.1 key field)) (sym e)
      ∙ rw (same_refl key, l);
  hget-hset_ne = λ key other field fields db db' e ne.
      ap (λ (t : Result (Unit {0}) × Table). or_nil (t.1 other field)) (sym e)
      ∙ elim (Bool-cases (same key other)) [
        | inl h ↦ absurd (ne (eq_of_same key other h))
        | inr h ↦ rw h
      ];
  hget-expire = λ key other field ttl db db' e.
      ap (λ (t : Result (Unit {0}) × Table). or_nil (t.1 other field)) (sym e);
  hget-del = λ key field db db' e.
      ap (λ (t : Result (Unit {0}) × Table). or_nil (t.1 key field)) (sym e) ∙ rw (same_refl key);
  hget-hsetnx = λ key field value db db' e.
      let (before, after) = set_absent-set key field value db db' (db key field) e in
      (
        before,
        ap (λ (t : Table). or_nil (t key field)) (sym after)
            ∙ ap or_nil (set_fields-one key field value db),
      );
  hsetnx-held =
      λ key field value held db e. set_absent-held key field value held db (db key field) e;
}

abbrev pub info : NodeInfo
info = record { id = str "a"; cluster_id = str "c" }

abbrev pub secret : MasterSecret
secret = record { secret = str "0a0B"; creator_id = str "a"; created = 4 }

abbrev pub member : Member
member = record { node_info = some info; master_secret = some secret }

abbrev pub service : ValKeyKeyService
service = new_valkey_key_service (str "betterkey") (member_vault (some member)) [] 9

abbrev held_table : Table
held_table = λ key field. some (str "held")

abbrev after_lock : Table
after_lock =
    (lock_round (key_store sample table service) (str "a") (str "lock") (λ key field. none)).1

-- The store of a key file.
abbrev on_disk : MasterKeyStore
on_disk = new_masterkey_store info absent true

abbrev newer : MasterSecret
newer = record { secret = str "0c"; creator_id = str "b"; created = 5 }

abbrev disk_after : MasterKeyStore → MasterSecret → MasterKeyStore
disk_after ks s = elim (sample.marshal_member (written_member ks s)) [
  | none ↦ ks
  | some json ↦ record ks { file = holding json }
]

info-IsAsciiInfo : IsAsciiInfo info
info-IsAsciiInfo = ((omega arith, tt), (omega arith, tt))

newer-IsAscii : IsAscii newer.secret × IsAscii newer.creator_id
newer-IsAscii = ((omega arith, (omega arith, tt)), (omega arith, tt))

-- The key that is written is the key that is read, behind SGX.
read-write_example :
    read sample (disk_after on_disk newer)
    ≡ ok (
      record (disk_after on_disk newer) { cached_masterkey = some (written_member on_disk newer) },
      some (written_member on_disk newer),
    )
unfolding write
read-write_example =
    read-write sample sample-IsLawful on_disk (disk_after on_disk newer) newer [] true
      info-IsAsciiInfo newer-IsAscii refl refl

abbrev cached : MasterKeyStore
cached = record on_disk { cached_masterkey = some member }

read-write_cached_example :
    (read sample (disk_after cached newer) ≡ ok (disk_after cached newer, some member))
    × (load sample true (disk_after cached newer).file ≡ ok (some (written_member cached newer)))
unfolding write
read-write_cached_example =
    read-write_cached sample sample-IsLawful cached (disk_after cached newer) newer [] true member
      info-IsAsciiInfo newer-IsAscii refl refl

-- Sets.
abbrev one_order : Set
one_order = record { m = str "b" ∷ str "a" ∷ [] }

abbrev other_order : Set
other_order = record { m = str "a" ∷ str "b" ∷ [] }

same_elements : SameElements one_order.m other_order.m
unfolding contains
same_elements b = ground (arith, same_iff (str "a") b, same_iff (str "b") b)

decode_string-encode_to_string_example :
    decode_string (encode_to_string (7 ∷ 255 ∷ [])) ≡ some (7 ∷ 255 ∷ [])
decode_string-encode_to_string_example =
    decode_string-encode_to_string (7 ∷ 255 ∷ []) (omega arith, (omega arith, tt))
