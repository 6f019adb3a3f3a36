-- ===== src/Common/Result.antt =====
-- Go's results: a value, an `error`, or a panic that ends the process. The sentinel errors that the
-- program compares by `==` have names of their own; any other error is known by its message.
use betterkey.Prelude.{◌≡◌, refl, subst, Bool, true, false, ◌⊎◌, inl, inr, Bytes, str}

pub data Error : Type 0 where
  no_encryption_service nonce_mismatched : Error
  valkey_nil not_exist cancelled : Error
  failed : Bytes → Error

-- `Error()`; a library's message is known by a label.
abbrev pub error_text : Error → Bytes
error_text no_encryption_service = str "no encryption service (missing masterkey)"
error_text nonce_mismatched = str "nonce mismatched"
error_text valkey_nil = str "valkey nil message"
error_text not_exist = str "file does not exist"
error_text cancelled = str "context canceled"
error_text (failed message) = message

pub data Result {κ} (X : Type κ) : Type κ where
  panic : Result X
  err : Error → Result X
  ok : X → Result X

-- The statement behind one that may fail.
infixl 5 ◌>>=◌
abbrev pub ◌>>=◌ {κ μ} : {X : Type κ} {Y : Type μ} → Result X → (X → Result Y) → Result Y
panic >>= next = panic
err reason >>= next = err reason
ok x >>= next = next x

infixl 5 ◌>>◌
abbrev pub ◌>>◌ {μ} : {Y : Type μ} → Result (Unit {0}) → Result Y → Result Y
first >> second = first >>= λ _. second

-- `if err != nil { panic(err) }`
abbrev pub must {ℓ} : {A : Type ℓ} → Result A → Result A
must (ok a) = ok a
must (err e) = panic
must panic = panic

-- `if !condition { panic(...) }`
abbrev pub require : Bool → Result (Unit {0})
require true = ok tt
require false = panic

-- `if !condition { return error }`
abbrev pub check : Bool → Error → Result (Unit {0})
check true e = ok tt
check false e = err e

pub >>=-eq-ok {κ μ} :
    {X : Type κ} {Y : Type μ} (r : Result X) (next : X → Result Y) {y : Y}
    → (r >>= next) ≡ ok y
    → (x : X) × (r ≡ ok x) × (next x ≡ ok y)
>>=-eq-ok panic next e = cc
>>=-eq-ok (err reason) next e = cc
>>=-eq-ok (ok x) next e = (x, refl, e)

pub ok-injective {ℓ} : {A : Type ℓ} {a b : A} → ◌≡◌ {A = Result A} (ok a) (ok b) → a ≡ b
ok-injective e = cc e

-- To split on a computed result and keep the equation.
pub Result-cases {ℓ} :
    {A : Type ℓ} (m : Result A) → ((a : A) × (m ≡ ok a)) ⊎ ((e : Error) × (m ≡ err e)) ⊎ (m ≡ panic)
Result-cases (ok a) = inl (a, refl)
Result-cases (err e) = inr (inl (e, refl))
Result-cases panic = inr (inr refl)

-- What holds of a result, if there is one.
abbrev pub Post {ℓ κ} : {A : Type ℓ} → (A → Type κ) → Result A → Type κ
Post P (ok a) = P a
Post P (err e) = Unit
Post P panic = Unit

pub Post-bind {ℓ κ μ ν} :
    {A : Type ℓ} {B : Type κ} (P : A → Type μ) (Q : B → Type ν) (m : Result A) (f : A → Result B)
    → Post P m
    → ((a : A) → P a → Post Q (f a))
    → Post Q (m >>= f)
Post-bind P Q (ok a) f h k = k a h
Post-bind P Q (err e) f h k = tt
Post-bind P Q panic f h k = tt

-- A bind whose first part has no postcondition of interest.
pub Post-then {ℓ κ ν} :
    {A : Type ℓ} {B : Type κ} (Q : B → Type ν) (m : Result A) (f : A → Result B)
    → ((a : A) → Post Q (f a))
    → Post Q (m >>= f)
Post-then Q (ok a) f k = k a
Post-then Q (err e) f k = tt
Post-then Q panic f k = tt

-- What is known once a result is there.
pub Post-ok {ℓ κ} : {A : Type ℓ} (P : A → Type κ) (m : Result A) {a : A} → Post P m → m ≡ ok a → P a
Post-ok P m h e = subst (Post P) e h

pub require-Post : (b : Bool) → Post (λ _. b ≡ true) (require b)
require-Post true = refl
require-Post false = tt

pub Post-map {ℓ κ ν} :
    {A : Type ℓ} (P : A → Type κ) (Q : A → Type ν) (m : Result A)
    → ((a : A) → P a → Q a)
    → Post P m
    → Post Q m
Post-map P Q (ok a) f h = f a h
Post-map P Q (err e) f h = tt
Post-map P Q panic f h = tt
