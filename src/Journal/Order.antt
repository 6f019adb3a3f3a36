-- ===== src/Journal/Order.antt =====
-- The order in which a record is uploaded.
use betterkey.Prelude.{
  ◌≡◌, ◌≢◌, refl, ap, sym, ◌∙◌, inl, inr, List, [], ◌∷◌, ◌++◌, Option, none, some, Bytes,
  Bool-cases,
}
use betterkey.Common.Result.{Error, Result, ok, err, panic}
use betterkey.Journal.{
  Record, Call, Object, events_prefix, marker, artifacts, entry_of, upload_all, upload_marker,
  write_entry, write_record,
}

-- The artifacts of a record under their keys, in order.
abbrev pub objects_of : Call → Bytes → List Object → List Object
objects_of c prefix [] = []
objects_of c prefix ((name, content) ∷ names) =
    (c.join prefix name, content) ∷ objects_of c prefix names

-- What was uploaded of the keys of a record, and what was not; all of it exactly where the result is
-- no error.
pub record Uploaded (objects bucket : List Object) (r : Result (Unit {0}) × List Object)
    : Type 0 where
  pub done : List Object
  pub missing : List Object
  pub split : objects ≡ done ++ missing
  pub after : r.1 ≡ bucket ++ done
  pub complete : r.0 ≡ ok tt → missing ≡ []
  pub succeeds : missing ≡ [] → r.0 ≡ ok tt

append_cons :
    (bucket : List Object) (k : Object) (l : List Object)
    → (bucket ++ k ∷ []) ++ l ≡ bucket ++ k ∷ l
append_cons [] k l = refl
append_cons (b ∷ bucket) k l = ap (λ t. b ∷ t) (append_cons bucket k l)

append_nil : (bucket : List Object) → bucket ≡ bucket ++ []
append_nil [] = refl
append_nil (b ∷ bucket) = ap (λ t. b ∷ t) (append_nil bucket)

append_assoc : (a b c : List Object) → (a ++ b) ++ c ≡ a ++ (b ++ c)
append_assoc [] b c = refl
append_assoc (x ∷ a) b c = ap (λ t. x ∷ t) (append_assoc a b c)

not_nil : (a : List Object) (k : Object) (b : List Object) → a ++ k ∷ b ≢ []
not_nil [] k b e = cc e
not_nil (x ∷ a) k b e = cc e

upload_all-Uploaded :
    (c : Call) (prefix : Bytes) (names bucket : List Object)
    → Uploaded (objects_of c prefix names) bucket (upload_all c prefix names bucket)
unfolding upload_all
upload_all-Uploaded c prefix [] bucket = record {
  done = [];
  missing = [];
  split = refl;
  after = append_nil bucket;
  complete = λ e. refl;
  succeeds = λ e. refl;
}
upload_all-Uploaded c prefix ((a, content) ∷ names) bucket =
    elim (Bool-cases (c.uploads (c.join prefix a))) [
      | inl h ↦
          let rest =
            upload_all-Uploaded c prefix names (bucket ++ (c.join prefix a, content) ∷ []) in
          rw h (record {
            done = (c.join prefix a, content) ∷ rest.done;
            missing = rest.missing;
            split = ap (λ t. (c.join prefix a, content) ∷ t) rest.split;
            after = rest.after ∙ append_cons bucket (c.join prefix a, content) rest.done;
            complete = rest.complete;
            succeeds = rest.succeeds;
          })
      | inr h ↦ rw h (record {
        done = [];
        missing = (c.join prefix a, content) ∷ objects_of c prefix names;
        split = refl;
        after = append_nil bucket;
        complete = λ e. cc e;
        succeeds = λ e. cc e;
      })
    ]

upload_marker-Uploaded :
    (c : Call) (r : Record) (objects bucket : List Object) (u : Result (Unit {0}) × List Object)
    → Uploaded objects bucket u
    → Uploaded
        (objects ++ (c.join events_prefix (marker c r), []) ∷ [])
        bucket
        (upload_marker c r u)
unfolding upload_marker
upload_marker-Uploaded c r objects bucket (ok u, db) v =
    let m : Object = (c.join events_prefix (marker c r), []) in
    let all : objects ≡ v.done =
      v.split ∙ ap (λ t. v.done ++ t) (v.complete refl) ∙ sym (append_nil v.done) in
    elim (Bool-cases (c.uploads m.0)) [
      | inl h ↦ rw h (record {
        done = v.done ++ m ∷ [];
        missing = [];
        split = ap (λ t. t ++ m ∷ []) all ∙ append_nil (v.done ++ m ∷ []);
        after = ap (λ t. t ++ m ∷ []) v.after ∙ append_assoc bucket v.done (m ∷ []);
        complete = λ e. refl;
        succeeds = λ e. refl;
      })
      | inr h ↦ rw h (record {
        done = v.done;
        missing = m ∷ [];
        split = ap (λ t. t ++ m ∷ []) all;
        after = v.after;
        complete = λ e. cc e;
        succeeds = λ e. cc e;
      })
    ]
upload_marker-Uploaded c r objects bucket (err f, db) v = record {
  done = v.done;
  missing = v.missing ++ (c.join events_prefix (marker c r), []) ∷ [];
  split =
      ap (λ t. t ++ (c.join events_prefix (marker c r), []) ∷ []) v.split
      ∙ append_assoc v.done v.missing _;
  after = v.after;
  complete = λ e. cc e;
  succeeds = λ e. absurd (not_nil v.missing _ [] e);
}
upload_marker-Uploaded c r objects bucket (panic, db) v = record {
  done = v.done;
  missing = v.missing ++ (c.join events_prefix (marker c r), []) ∷ [];
  split =
      ap (λ t. t ++ (c.join events_prefix (marker c r), []) ∷ []) v.split
      ∙ append_assoc v.done v.missing _;
  after = v.after;
  complete = λ e. cc e;
  succeeds = λ e. absurd (not_nil v.missing _ [] e);
}

abbrev pub json_or_nothing : Option Bytes → Bytes
json_or_nothing none = []
json_or_nothing (some json) = json

-- What a record is uploaded as, with the JSON of its entry: the artifacts, and the marker behind them.
abbrev pub uploaded_as : Call → Record → Bytes → List Object
uploaded_as c r json =
    objects_of c (c.join r.resource_id r.session_id) (artifacts r json)
    ++ (c.join events_prefix (marker c r), []) ∷ []

nothing-Uploaded :
    (c : Call) (r : Record) (json : Bytes) (bucket : List Object) (f : Error)
    → Uploaded (uploaded_as c r json) bucket (err f, bucket)
nothing-Uploaded c r json bucket f = record {
  done = [];
  missing = uploaded_as c r json;
  split = refl;
  after = append_nil bucket;
  complete = λ e. cc e;
  succeeds = λ e. absurd (not_nil (objects_of c _ (artifacts r json)) _ [] e);
}

write_entry-Uploaded :
    (c : Call) (r : Record) (bucket : List Object) (o : Option Bytes)
    → Uploaded (uploaded_as c r (json_or_nothing o)) bucket (write_entry c r bucket o)
unfolding write_entry
write_entry-Uploaded c r bucket none = nothing-Uploaded c r [] bucket _
write_entry-Uploaded c r bucket (some json) =
    let prefix : Bytes = c.join r.resource_id r.session_id in
    upload_marker-Uploaded c r (objects_of c prefix (artifacts r json)) bucket
      (upload_all c prefix (artifacts r json) bucket)
      (upload_all-Uploaded c prefix (artifacts r json) bucket)

-- `Write` uploads a first part of a record, in this order: the JSON of its entry, its quote if it has
-- one, and its marker, each under its key; and all of it exactly where it returns no error. So a marker
-- is there only behind all the artifacts.
pub write_record-Uploaded :
    (c : Call) (r : Record) (bucket : List Object)
    → Uploaded
        (uploaded_as c r (json_or_nothing (c.marshal_indent (entry_of c r))))
        bucket
        (write_record c r bucket)
unfolding write_record
write_record-Uploaded c r bucket = elim (Bool-cases c.cancelled) [
  | inl h ↦ rw h (nothing-Uploaded c r _ bucket _)
  | inr h ↦ rw h (write_entry-Uploaded c r bucket (c.marshal_indent (entry_of c r)))
]
