-- ===== src/Journal.antt =====
-- providers/journal/journal.go and s3.go: a record is uploaded as a few files, and an event marker
-- behind them. The bucket is the list of the keys and contents uploaded, in their order; `uploads` says
-- which uploads succeed.
pub mod Order
use betterkey.Prelude.{
  ℕ, ◌≡◌, ◌≢◌, ◌⊎◌, refl, ap, sym, ◌∙◌, inl, inr, Bool, true, false, List, [], ◌∷◌, ◌++◌, Option,
  none, some, arith, All, All-append, Bytes, str, same, length, ◌==◌, ◌||◌, Bool-cases,
  if◌then◌else◌,
}
use betterkey.Common.Result.{Error, Result, ok, err, panic, failed}
use betterkey.Web.Session.{parse_session_id, padded}

-- The categories, types and states are strings.
pub record Record : Type 0 where
  pub category : Bytes
  pub type : Bytes
  pub resource_id : Bytes
  pub session_id : Bytes
  pub description : Bytes
  pub status : Bytes
  pub quote : Bytes
  pub quote_summary : Bytes
  pub event_log_summary : Bytes
  pub mrtd : Bytes
  pub cfv : Bytes

abbrev pub category_kds : Bytes
category_kds = str "KDS"

abbrev pub type_key_request : Bytes
type_key_request = str "KEY_REQUEST"

abbrev pub type_tdx_seal : Bytes
type_tdx_seal = str "TDX_SEAL"

abbrev pub status_success : Bytes
status_success = str "SUCCESS"

abbrev pub status_failure : Bytes
status_failure = str "FAIL"

-- `journal.Config`
pub record JournalConfig : Type 0 where
  pub endpoint : Bytes
  pub region : Bytes
  pub access_key : Bytes
  pub secret_key : Bytes

-- `Journal`: it drops what it is given, or writes it to a bucket.
pub data Backend : Type 0 where
  noop_journal : Backend
  s3_journal : JournalConfig → Backend

-- `NewJournal` with the S3 backend.
unfoldable pub new_journal : JournalConfig → Backend
new_journal cfg =
    if length cfg.endpoint == 0 || length cfg.secret_key == 0 then noop_journal else s3_journal cfg

pub record Meta : Type 0 where
  pub quote_summary : Bytes
  pub event_log_summary : Bytes
  pub mrtd : Bytes
  pub cfv : Bytes

pub record Entry : Type 0 where
  pub category : Bytes
  pub journal_type : Bytes
  pub description : Bytes
  pub resource_id : Bytes
  pub timestamp : ℕ
  pub status : Bytes
  pub meta : Meta

-- `path.Join` and `strings.ToLower`, the time in milliseconds, whether the context is done, and the JSON
-- of an entry.
pub record Call : Type 0 where
  pub join : Bytes → Bytes → Bytes
  pub to_lower : Bytes → Bytes
  pub now : ℕ
  pub cancelled : Bool
  pub marshal_indent : Entry → Option Bytes
  pub uploads : Bytes → Bool

abbrev pub events_prefix : Bytes
events_prefix = str "events"

-- The name of the event marker: the time of the session, or the time of the entry where the session id
-- has none; then the resource and the type.
unfoldable pub marker : Call → Record → Bytes
marker c r =
    let (ts, found) = parse_session_id r.session_id in
    (if found then ts else padded c.now) ++ str "." ++ r.resource_id ++ str "." ++ c.to_lower r.type

unfoldable pub entry_of : Call → Record → Entry
entry_of c r = record {
  category = r.category;
  journal_type = r.type;
  description = r.description;
  resource_id = r.resource_id;
  timestamp = c.now;
  status = r.status;
  meta = record {
    quote_summary = r.quote_summary;
    event_log_summary = r.event_log_summary;
    mrtd = r.mrtd;
    cfv = r.cfv;
  };
}

-- A key, or the name of an artifact, and the content.
abbrev pub Object : Type 0
Object = Bytes × Bytes

unfoldable pub artifacts : Record → Bytes → List Object
artifacts r json_entry =
    (str "journal.json", json_entry)
    ∷ (if length r.quote == 0 then [] else (str "quote.b64", r.quote) ∷ [])

-- The loop over the artifacts: it ends with the first upload that fails.
unfoldable pub upload_all :
    Call → Bytes → List Object → List Object → Result (Unit {0}) × List Object
upload_all c prefix [] bucket = (ok tt, bucket)
upload_all c prefix ((name, content) ∷ names) bucket =
    let key : Bytes = c.join prefix name in
    let rest = upload_all c prefix names (bucket ++ (key, content) ∷ []) in
    if c.uploads key then rest else (err (failed (str "upload")), bucket)

unfoldable pub upload_marker :
    Call → Record → Result (Unit {0}) × List Object → Result (Unit {0}) × List Object
unfolding marker
upload_marker c r (ok u, bucket) =
    let key : Bytes = c.join events_prefix (marker c r) in
    if c.uploads key
    then (ok tt, bucket ++ (key, []) ∷ [])
    else (err (failed (str "upload event marker")), bucket)
upload_marker c r (err e, bucket) = (err e, bucket)
upload_marker c r (panic, bucket) = (panic, bucket)

unfoldable pub write_entry :
    Call → Record → List Object → Option Bytes → Result (Unit {0}) × List Object
unfolding artifacts upload_all upload_marker
write_entry c r bucket none = (err (failed (str "marshal journal entry")), bucket)
write_entry c r bucket (some json_entry) =
    upload_marker c r
      (upload_all c (c.join r.resource_id r.session_id) (artifacts r json_entry) bucket)

-- `Write`
unfoldable pub write_record : Call → Record → List Object → Result (Unit {0}) × List Object
unfolding write_entry entry_of
write_record c r bucket =
    if c.cancelled
    then (err (failed (str "context")), bucket)
    else write_entry c r bucket (c.marshal_indent (entry_of c r))

-- `Write` of either journal.
unfoldable pub write_to : Backend → Call → Record → List Object → Result (Unit {0}) × List Object
unfolding write_record
write_to noop_journal c r bucket = (ok tt, bucket)
write_to (s3_journal cfg) c r bucket = write_record c r bucket
