-- ===== src/Web/Reply.antt =====
-- internal/web/response.go: what a request comes to. `respondError` and `keyResponseError` write the
-- code and the message in bodies of two forms, which an `ErrorForm` tells apart.
use betterkey.Prelude.{ℕ, ◌≡◌, refl, ap, Option, none, some, Bytes, Bool, true, false}
use betterkey.Common.Result.{Result, ok, err, panic}

pub record ErrorWithCode : Type 0 where
  pub message : Bytes
  pub code : ℕ

abbrev pub new_error : Bytes → ℕ → ErrorWithCode
new_error message code = record { message = message; code = code }

abbrev pub bad_request : ℕ
bad_request = 400

abbrev pub unauthorized : ℕ
unauthorized = 401

abbrev pub internal_server_error : ℕ
internal_server_error = 500

pub data ErrorForm : Type 0 where
  plain_error key_error : ErrorForm

-- A panic in a handler ends the request alone.
pub data Answer (A : Type 0) : Type 0 where
  granted : A → Answer A
  refused : ErrorWithCode → Answer A
  crashed : Answer A

abbrev pub Handler : Type 0 → Type 0 → Type 0
Handler S A = S → Answer A × S

abbrev pub go_on : {S A B : Type 0} → Answer A → S → (A → Handler S B) → Answer B × S
go_on (granted a) db f = f a db
go_on (refused e) db f = (refused e, db)
go_on crashed db f = (crashed, db)

infixl 5 ◌>>=◌ ◌>>◌
abbrev pub ◌>>=◌ : {S A B : Type 0} → Handler S A → (A → Handler S B) → Handler S B
h >>= f = λ db. let r = h db in go_on r.0 r.1 f

abbrev pub ◌>>◌ : {S A B : Type 0} → Handler S A → Handler S B → Handler S B
g >> h = g >>= λ _. h

-- An answer that leaves the store alone.
abbrev pub stay : {S A : Type 0} → Answer A → Handler S A
stay a db = (a, db)

abbrev pub or_refuse : {A : Type 0} → Option A → ErrorWithCode → Answer A
or_refuse none e = refused e
or_refuse (some a) e = granted a

-- A call whose error is answered with a code.
abbrev pub expect : {A : Type 0} → Result A → ErrorWithCode → Answer A
expect (ok a) e = granted a
expect (err f) e = refused e
expect panic e = crashed

abbrev pub require_that : Bool → ErrorWithCode → Answer (Unit {0})
require_that true e = granted tt
require_that false e = refused e

go_on-granted :
    {S A B : Type 0} (a : Answer A) (db : S) (f : A → Handler S B) {b : B} {db' : S}
    → go_on a db f ≡ (granted b, db')
    → (v : A) × (a ≡ granted v) × (f v db ≡ (granted b, db'))
go_on-granted (granted a) db f e = (a, refl, e)
go_on-granted (refused r) db f e = cc (ap (λ t. t.0) e)
go_on-granted crashed db f e = cc (ap (λ t. t.0) e)

-- Inversion of a step that was followed by a grant.
pub >>=-granted :
    {S A B : Type 0} (h : Handler S A) (f : A → Handler S B) (db : S) {b : B} {db' : S}
    → (h >>= f) db ≡ (granted b, db')
    → (v : A) × ((h db).0 ≡ granted v) × (f v (h db).1 ≡ (granted b, db'))
>>=-granted h f db e = go_on-granted (h db).0 (h db).1 f e

pub or_refuse-granted :
    {A : Type 0} (o : Option A) (e : ErrorWithCode) {a : A} → or_refuse o e ≡ granted a → o ≡ some a
or_refuse-granted none e h = cc h
or_refuse-granted (some b) e h = cc h

pub expect-granted :
    {A : Type 0} (r : Result A) (e : ErrorWithCode) {a : A} → expect r e ≡ granted a → r ≡ ok a
expect-granted (ok b) e h = cc h
expect-granted (err f) e h = cc h
expect-granted panic e h = cc h

pub require_that-granted :
    (b : Bool) (e : ErrorWithCode) {u : Unit {0}} → require_that b e ≡ granted u → b ≡ true
require_that-granted true e h = refl
require_that-granted false e h = cc h
