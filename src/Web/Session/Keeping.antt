-- ===== src/Web/Session/Keeping.antt =====
-- What a session store keeps, over any key store, and what a session id holds.
use betterkey.Prelude.{
  ℕ, ◌≡◌, ◌≢◌, refl, ap, sym, ◌∙◌, inl, inr, Bool, true, false, [], ◌∷◌, ◌++◌, some, arith, Bytes,
  All, All-append, Bool-cases, str, ◌==◌, zero, suc, ◌/◌, ◌+◌, ◌-◌, ◌*◌, ◌%◌, ◌≤◌, length,
}
use betterkey.Common.Result.{Result, ok}
use betterkey.Common.Services.{or_error, or_error-eq-ok}
use betterkey.Common.KeyStore.{lift, BaseKeyStore, IsStore, >>=-eq-ok}
use betterkey.Web.Reply.{granted, refused, new_error, unauthorized}
use betterkey.Web.Session.{
  new_session_key_store, AttestationRequestStore, SessionJson, create, get, fetched, delete_session,
  store_prefix_session, key_req_session_expiry_seconds, decimal, zeros, padded, generate_session_id,
  parse_session_id,
}

-- What is written as JSON is read back.
pub record IsJson (j : SessionJson) : Type 0 where
  pub unmarshal-marshal :
      (r : AttestationRequestStore) (json : Bytes)
      → j.marshal r ≡ some json
      → j.unmarshal json ≡ some r

prefix-cancel : (n a b : Bytes) → n ++ a ≡ n ++ b → a ≡ b
prefix-cancel [] a b e = e
prefix-cancel (c ∷ n) a b e = prefix-cancel n a b (cc e)

-- The session store of a server, in dev mode or not, is a key store where the store below it is one.
pub new_session_key_store-IsStore :
    {S : Type 0} (k : BaseKeyStore S) (dev : Bool)
    → IsStore k
    → IsStore (new_session_key_store k dev)
unfolding new_session_key_store
new_session_key_store-IsStore k dev v = record {
  read-write = λ id value ttl s s' e. v.read-write _ value ttl s s' e;
  read-write_ne = λ id other value ttl s s' ne e.
      v.read-write_ne _ _ value ttl s s' (λ p. ne (prefix-cancel _ id other p)) e;
  read-delete = λ id s s' e. v.read-delete _ s s' e;
}

module _ (j : SessionJson) {S : Type 0} (kv : BaseKeyStore S) (store : IsStore kv) where
  -- A session that `Create` has returned is fetched with its nonce and its payload, and every other
  -- session that could be fetched before is fetched as before.
  pub get-create :
      (json_laws : IsJson j) (id nonce payload made : Bytes) (db db' : S)
      → create j kv id nonce payload db ≡ (ok made, db')
      → (made ≡ id)
        × ((get j kv id db').0 ≡ granted (record { nonce = nonce; payload = payload }))
        × ((other : Bytes) → id ≢ other → (get j kv other db').0 ≡ (get j kv other db).0)
  unfolding create get fetched
  get-create json_laws id nonce payload made db db' e =
      let session : AttestationRequestStore = record { nonce = nonce; payload = payload } in
      let (json, db1, e1, r1) =
        >>=-eq-ok (lift (or_error (j.marshal session) (str "json"))) _ db e in
      let (u, db2, e2, r2) =
        >>=-eq-ok
          (kv.write_with_ttl (store_prefix_session ++ id) json
            (some key_req_session_expiry_seconds))
          _ db1 r1 in
      let same_db : db1 ≡ db = ap (λ (p : Result Bytes × S). p.1) (sym e1) in
      let last : db2 ≡ db' = ap (λ (p : Result Bytes × S). p.1) r2 in
      let marshalled =
        or_error-eq-ok (j.marshal session) _ (ap (λ (p : Result Bytes × S). p.0) e1) in
      let after : kv.write_with_ttl (store_prefix_session ++ id) json
            (some key_req_session_expiry_seconds) db1
          ≡ (ok tt, db') =
        e2 ∙ ap (λ t. (ok tt, t)) last in
      (
        ids (ap (λ (p : Result Bytes × S). p.0) r2),
        rw (
          store.read-write _ json 59 db1 db' after,
          json_laws.unmarshal-marshal session json marshalled,
        ),
        λ other ne. ap (fetched j kv) (
            store.read-write_ne _ (store_prefix_session ++ other) json 59 db1 db'
              (λ p. ne (prefix-cancel store_prefix_session id other p)) after
            ∙ ap (λ t. (kv.read (store_prefix_session ++ other) t).0) same_db),
      )
    where
      ids : ◌≡◌ {A = Result Bytes} (ok id) (ok made) → made ≡ id
      ids h = cc h

  -- A session that was deleted is refused with the code 401.
  pub get-deleted :
      (id : Bytes) (db db' : S)
      → delete_session j kv id db ≡ (ok tt, db')
      → (get j kv id db').0 ≡ refused (new_error (str "Session expired or invalid") unauthorized)
  unfolding delete_session get fetched
  get-deleted id db db' e =
      let (f, missing, nil) = store.read-delete _ db db' e in rw (missing, nil)

-- The number that decimal digits stand for.
abbrev pub read_decimal : ℕ → Bytes → ℕ
read_decimal acc [] = acc
read_decimal acc (c ∷ cs) = read_decimal (acc * 10 + (c - b'0')) cs

read_decimal_snoc :
    (acc c : ℕ) (cs : Bytes)
    → read_decimal acc (cs ++ c ∷ []) ≡ read_decimal acc cs * 10 + (c - b'0')
read_decimal_snoc acc c [] = refl
read_decimal_snoc acc c (d ∷ cs) = read_decimal_snoc (acc * 10 + (d - b'0')) c cs

-- The fuel of `decimal` is enough: a number is read back from its digits.
read_decimal-decimal : (fuel n : ℕ) → n ≤ fuel → read_decimal 0 (decimal fuel n) ≡ n
unfolding decimal
read_decimal-decimal zero n h = omega arith
read_decimal-decimal (suc fuel) n h = elim (Bool-cases (n == 0)) [
  | inl e ↦ rw e (ground (arith, e))
  | inr e ↦
      let rest = read_decimal-decimal fuel (n / 10) (ground (arith, e)) in
      rw e (read_decimal_snoc 0 (b'0' + n % 10) (decimal fuel (n / 10)) ∙ omega (arith, rest))
]

no_dot-decimal : (fuel n : ℕ) → All (λ c. (c == b'.') ≡ false) (decimal fuel n)
unfolding decimal
no_dot-decimal zero n = tt
no_dot-decimal (suc fuel) n = elim (Bool-cases (n == 0)) [
  | inl e ↦ rw e tt
  | inr e ↦ rw e (
      All-append (λ c. (c == b'.') ≡ false) (decimal fuel (n / 10)) _ (no_dot-decimal fuel (n / 10))
        (ground arith, tt))
]

no_dot-zeros : (n : ℕ) → All (λ c. (c == b'.') ≡ false) (zeros n)
unfolding zeros
no_dot-zeros zero = tt
no_dot-zeros (suc n) = (refl, no_dot-zeros n)

parse-no_dot :
    (ts rest : Bytes)
    → All (λ c. (c == b'.') ≡ false) ts
    → parse_session_id (ts ++ b'.' ∷ rest) ≡ (ts, true)
unfolding parse_session_id
parse-no_dot [] rest h = refl
parse-no_dot (c ∷ ts) rest h = rw (h.0, parse-no_dot ts rest h.1)

read_decimal-zeros : (n : ℕ) (cs : Bytes) → read_decimal 0 (zeros n ++ cs) ≡ read_decimal 0 cs
unfolding zeros
read_decimal-zeros zero cs = refl
read_decimal-zeros (suc n) cs = read_decimal-zeros n cs

-- The id of a session is parsed back to the time at which it was made, padded to 13 digits, and
-- these digits are read back as that time.
pub parse_session_id-generate_session_id :
    (now : ℕ) (uuid : Bytes)
    → (parse_session_id (generate_session_id now uuid) ≡ (padded now, true))
      × (read_decimal 0 (padded now) ≡ now)
unfolding generate_session_id padded
parse_session_id-generate_session_id now uuid = (
  parse-no_dot (padded now) uuid (
      All-append (λ c. (c == b'.') ≡ false) (zeros _) (decimal now now) (no_dot-zeros _)
        (no_dot-decimal now now)),
  read_decimal-zeros (13 - length (decimal now now)) (decimal now now)
      ∙ read_decimal-decimal now now (omega arith),
)
