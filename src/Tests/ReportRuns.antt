-- ===== src/Tests/ReportRuns.antt =====
-- An enclave, a journal and a listener, and what the theorems on them say.
use betterkey.Prelude.{true, false, [], ◌∷◌, ◌++◌, none, some, str}
use betterkey.Sgx.Report.{Report, EnclaveConfig}
use betterkey.Journal.{
  Record, Call, category_kds, type_key_request, status_success, entry_of, write_record,
}
use betterkey.Journal.Order.{Uploaded, uploaded_as, json_or_nothing, write_record-Uploaded}

abbrev pub report : Report
report = record {
  report_data = 1 ∷ 2 ∷ 3 ∷ 4 ∷ [];
  security_version = 2;
  debug = false;
  unique_id = [];
  signer_id = 171 ∷ [];
  product_id = 16 ∷ 0 ∷ [];
  tcb_status = str "UpToDate";
  tcb_advisories = [];
  tcb_advisories_err = none;
}

abbrev pub config : EnclaveConfig
config = record {
  product_id = 16;
  debug = false;
  signer_id = str "ab";
  security_versions = 1 ∷ 2 ∷ [];
}

abbrev call : Call
call = record {
  join = λ a b. a ++ str "/" ++ b;
  to_lower = λ b. b;
  now = 17;
  cancelled = false;
  marshal_indent = λ e. some e.description;
  uploads = λ key. true;
}

abbrev entry : Record
entry = record {
  category = category_kds;
  type = type_key_request;
  resource_id = str "vm";
  session_id = str "0000000000017.u";
  description = str "Key request succeeded";
  status = status_success;
  quote = str "q";
  quote_summary = [];
  event_log_summary = [];
  mrtd = [];
  cfv = [];
}

write_record-Uploaded_example :
    Uploaded
      (uploaded_as call entry (json_or_nothing (call.marshal_indent (entry_of call entry))))
      []
      (write_record call entry [])
write_record-Uploaded_example = write_record-Uploaded call entry []
