-- ===== src/Web/Http.antt =====
-- The wire of the web server: internal/web/request.go, response.go and middleware.go. The decoder and
-- the encoder of encoding/json are parameters.
use betterkey.Prelude.{
  ℕ, ◌*◌, Bool, true, false, List, [], ◌∷◌, ◌++◌, Option, none, some, Bytes, str, take,
  if◌then◌else◌,
}
use betterkey.Web.Reply.{
  ErrorWithCode, ErrorForm, plain_error, key_error, internal_server_error, Answer, granted, refused,
  crashed,
}
use betterkey.Web.Session.{VerifyResponse}
use betterkey.Web.KeyService.{Key, TdxSealResponse}

pub record HttpRequest : Type 0 where
  pub method : Bytes
  pub path : Bytes
  -- `r.TLS.ServerName`: the server answers on TLS alone.
  pub server_name : Bytes
  pub body : Bytes

-- What a body is made of: the JSON of a value, or text.
pub data Body : Type 0 where
  verify_response : VerifyResponse → Body
  key_response : Option Key → Bool → Bytes → Body
  seal_response : TdxSealResponse → Body
  sgx_quote : Bytes → Body
  error_message : Bytes → Body
  plain_text : Bytes → Body

-- `http.ResponseWriter`: the content type that is set, the code with the content type that went with
-- it, once they are sent, and the body.
pub record Writer : Type 0 where
  pub content_type : Option Bytes
  pub sent : Option (ℕ × Option Bytes)
  pub body : List Body

abbrev pub new_writer : Writer
new_writer = record { content_type = none; sent = none; body = [] }

abbrev pub application_json : Bytes
application_json = str "application/json"

abbrev pub ok_status : ℕ
ok_status = 200

abbrev pub set_content_type : Bytes → Writer → Writer
set_content_type type w = record w { content_type = some type }

abbrev or_sent : ℕ × Option Bytes → Option (ℕ × Option Bytes) → Option (ℕ × Option Bytes)
or_sent now none = some now
or_sent now (some before) = some before

-- A second code is ignored.
abbrev pub write_header : ℕ → Writer → Writer
write_header code w = record w { sent = or_sent (code, w.content_type) w.sent }

-- Without a code before it, a body is sent with the code 200.
abbrev pub write : Body → Writer → Writer
write part w = let v = write_header ok_status w in record v { body = w.body ++ part ∷ [] }

-- `http.Error`
abbrev pub http_error : Bytes → ℕ → Writer → Writer
http_error message code w =
    write (plain_text message)
      (write_header code (set_content_type (str "text/plain; charset=utf-8") w))

module _ (encodes : Body → Bool) where
  unfoldable pub respond_json : ℕ → Body → Writer → Writer
  respond_json code v w =
      let sent = write_header code w in
      if encodes v
      then write v sent
      else http_error (str "failed to encode response") internal_server_error sent

  unfoldable pub respond_error : ErrorWithCode → Writer → Writer
  unfolding respond_json
  respond_error e w =
      respond_json e.code (error_message e.message) (set_content_type application_json w)

  unfoldable pub key_response_error : ErrorWithCode → Writer → Writer
  unfolding respond_json
  key_response_error e w = respond_json e.code (key_response none false e.message) w

  abbrev pub respond_refusal : ErrorForm → ErrorWithCode → Writer → Writer
  respond_refusal plain_error e w = respond_error e w
  respond_refusal key_error e w = key_response_error e w

  -- How a handler ends: with a response, or with a panic, which closes the connection.
  abbrev pub respond : {A : Type 0} → (A → Body) → ErrorForm → Answer A → Writer → Option Writer
  respond f form (granted a) w = some (respond_json ok_status (f a) w)
  respond f form (refused e) w = some (respond_refusal form e w)
  respond f form crashed w = none

-- `DefaultHeaders`
unfoldable pub default_headers : (Writer → Option Writer) → Writer → Option Writer
default_headers next w = next (set_content_type application_json w)

-- What `json.Decoder.Decode` makes of a text: a value with what is behind it, the end, or an error.
pub data Decoded (A : Type 0) : Type 0 where
  value : A → Bytes → Decoded A
  eof malformed : Decoded A

abbrev pub body_limit : ℕ
body_limit = 1024 * 1024

abbrev is_eof : Decoded (Unit {0}) → Bool
is_eof (value u rest) = false
is_eof eof = true
is_eof malformed = false

abbrev only_value : {A : Type 0} → (Bytes → Decoded (Unit {0})) → Decoded A → Option A
only_value decode_empty (value v rest) = if is_eof (decode_empty rest) then some v else none
only_value decode_empty eof = none
only_value decode_empty malformed = none

-- `decodeRequest`: one value in the first MiB of the body, and nothing behind it there.
unfoldable pub decode_request :
    {A : Type 0} → (Bytes → Decoded A) → (Bytes → Decoded (Unit {0})) → Bytes → Option A
decode_request decode decode_empty body = only_value decode_empty (decode (take body_limit body))
