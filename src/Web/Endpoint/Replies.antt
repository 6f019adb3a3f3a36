-- ===== src/Web/Endpoint/Replies.antt =====
-- What the functions of internal/web/response.go leave in a response that is not sent yet.
use betterkey.Prelude.{
  some-injective, ℕ, ◌≡◌, refl, subst, inl, inr, Bool, false, [], ◌∷◌, none, some, Bytes, str,
  Bool-cases,
}
use betterkey.Web.Http.{
  Body, key_response, error_message, plain_text, Writer, new_writer, ok_status, application_json,
  set_content_type, respond_json, respond_error, key_response_error, respond_refusal, respond,
}
use betterkey.Web.Reply.{
  ErrorWithCode, ErrorForm, plain_error, key_error, Answer, granted, refused, crashed,
}

-- What holds of every body that tells of an error.
pub record IsHarmless (P : ℕ → Body → Type 0) : Type 0 where
  pub error : (code : ℕ) (message : Bytes) → P code (error_message message)
  pub text : (code : ℕ) (message : Bytes) → P code (plain_text message)
  pub refusal : (code : ℕ) (message : Bytes) → P code (key_response none false message)

-- One code, sent for JSON, and one body, of which something holds.
pub record IsAnswered (P : ℕ → Body → Type 0) (v : Writer) : Type 0 where
  pub code : ℕ
  pub part : Body
  pub sent : v.sent ≡ some (code, some application_json)
  pub body : v.body ≡ part ∷ []
  pub holds : P code part

abbrev pub ready : Writer
ready = set_content_type application_json new_writer

module _ (encodes : Body → Bool) (P : ℕ → Body → Type 0) (harmless : IsHarmless P) where
  respond_json-IsAnswered :
      (code : ℕ) (b : Body) → P code b → IsAnswered P (respond_json encodes code b ready)
  unfolding respond_json
  respond_json-IsAnswered code b p = elim (Bool-cases (encodes b)) [
    | inl h ↦ rw h (record { code = code; part = b; sent = refl; body = refl; holds = p })
    | inr h ↦ rw h (record {
      code = code;
      part = plain_text (str "failed to encode response");
      sent = refl;
      body = refl;
      holds = harmless.text code _;
    })
  ]

  refusal-IsAnswered :
      (form : ErrorForm) (e : ErrorWithCode) → IsAnswered P (respond_refusal encodes form e ready)
  unfolding respond_error key_response_error
  refusal-IsAnswered plain_error e = respond_json-IsAnswered e.code _ (harmless.error _ _)
  refusal-IsAnswered key_error e = respond_json-IsAnswered e.code _ (harmless.refusal _ _)

  pub respond-IsAnswered :
      {A : Type 0} (f : A → Body) (form : ErrorForm) (answer : Answer A) (v : Writer)
      → ((a : A) → answer ≡ granted a → P ok_status (f a))
      → respond encodes f form answer ready ≡ some v
      → IsAnswered P v
  respond-IsAnswered f form (granted a) v p e =
      subst (IsAnswered P) (some-injective e) (respond_json-IsAnswered ok_status (f a) (p a refl))
  respond-IsAnswered f form (refused r) v p e =
      subst (IsAnswered P) (some-injective e) (refusal-IsAnswered form r)
  respond-IsAnswered f form crashed v p e = cc e
