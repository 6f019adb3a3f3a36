-- ===== src/Common/KeyStore.antt =====
-- The interfaces BaseKeyStore and KeyStore of internal/common/services.go, over the state of what
-- stands behind them. An operation that fails may have changed the state.
use betterkey.Prelude.{ℕ, suc, refl, ap, ◌≡◌, ◌≢◌, Bool, List, Option, some, Bytes}
use betterkey.Common.Result.{Error, Result, ok, err, panic}

-- A number of seconds; `none` for a negative one.
abbrev pub Ttl : Type 0
Ttl = Option ℕ

abbrev pub Exec : Type 0 → Type 0 → Type 0
Exec S A = S → Result A × S

infixl 5 ◌>>=◌ ◌>>◌
abbrev continue : {S A B : Type 0} → Result A → S → (A → Exec S B) → Result B × S
continue (ok a) s f = f a s
continue (err e) s f = (err e, s)
continue panic s f = (panic, s)

abbrev pub ◌>>=◌ : {S A B : Type 0} → Exec S A → (A → Exec S B) → Exec S B
◌>>=◌ m f s = let r = m s in continue r.0 r.1 f

abbrev pub ◌>>◌ : {S A B : Type 0} → Exec S A → Exec S B → Exec S B
m >> n = m >>= λ _. n

-- A computation that leaves the state alone.
abbrev pub lift : {S A : Type 0} → Result A → Exec S A
lift r s = (r, s)

pub record BaseKeyStore (S : Type 0) : Type 0 where
  pub read : Bytes → Exec S Bytes
  pub write : Bytes → Bytes → Exec S (Unit {0})
  pub write_with_ttl : Bytes → Bytes → Ttl → Exec S (Unit {0})
  pub delete : Bytes → Exec S (Unit {0})
  pub exists : Bytes → Exec S ℕ
  pub has_nil : Error → Bool

pub record StorageStat : Type 0 where
  pub size : ℕ
  pub mod_time : ℕ

pub record KeyStore (S : Type 0) : Type 0 where
  pub base : BaseKeyStore S
  pub open base use *
  pub list : Bytes → Bool → Exec S (List Bytes)
  pub stat : Bytes → Exec S StorageStat
  -- The flag says whether the value was set; an error may come beside it.
  pub write_nx : Bytes → Bytes → ℕ → Exec S (Bool × Option Error)

-- What a client relies on: a write that returns is read back, a key that was deleted is not there, and
-- neither touches another key.
pub record IsStore {S : Type 0} (k : BaseKeyStore S) : Type 0 where
  pub read-write :
      (id value : Bytes) (ttl : ℕ) (s s' : S)
      → k.write_with_ttl id value (some (suc ttl)) s ≡ (ok tt, s')
      → (k.read id s').0 ≡ ok value
  pub read-write_ne :
      (id other value : Bytes) (ttl : ℕ) (s s' : S)
      → id ≢ other
      → k.write_with_ttl id value (some (suc ttl)) s ≡ (ok tt, s')
      → (k.read other s').0 ≡ (k.read other s).0
  pub read-delete :
      (id : Bytes) (s s' : S)
      → k.delete id s ≡ (ok tt, s')
      → (e : Error) × ((k.read id s').0 ≡ err e) × (k.has_nil e ≡ Bool.true)

continue-eq-ok :
    {S A B : Type 0} (r : Result A) (s : S) (f : A → Exec S B) {b : B} {s'' : S}
    → continue r s f ≡ (ok b, s'')
    → (a : A) × (r ≡ ok a) × (f a s ≡ (ok b, s''))
continue-eq-ok (ok a) s f h = (a, refl, h)
continue-eq-ok (err e) s f h = cc (ap (λ t. t.0) h)
continue-eq-ok panic s f h = cc (ap (λ t. t.0) h)

-- Inversion of a step that was followed by a result.
pub >>=-eq-ok :
    {S A B : Type 0} (m : Exec S A) (f : A → Exec S B) (s : S) {b : B} {s'' : S}
    → (m >>= f) s ≡ (ok b, s'')
    → (a : A) × (s' : S) × (m s ≡ (ok a, s')) × (f a s' ≡ (ok b, s''))
>>=-eq-ok m f s h =
    let (a, e, rest) = continue-eq-ok (m s).0 (m s).1 f h in
    (a, (m s).1, ap (λ r. (r, (m s).1)) e, rest)
