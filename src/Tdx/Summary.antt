-- ===== src/Tdx/Summary.antt =====
-- internal/tdx/quote.go: the summary of a quote that goes to the journal.
use betterkey.Prelude.{ℕ, List, [], Option, none, some, Bytes}
use betterkey.Tdx.{TdxQuote}

pub record QuoteHeader : Type 0 where
  pub version : ℕ
  pub attestation_key_type : ℕ
  pub tee_type : ℕ
  pub qe_svn : Bytes
  pub pce_svn : Bytes
  pub qe_vendor_id : Bytes
  pub user_data : Bytes

pub record QuoteBody : Type 0 where
  pub tee_tcb_svn : Bytes
  pub mr_seam : Bytes
  pub mr_signer_seam : Bytes
  pub seam_attributes : Bytes
  pub td_attributes : Bytes
  pub xfam : Bytes
  pub mr_td : Bytes
  pub mr_config_id : Bytes
  pub mr_owner : Bytes
  pub mr_owner_config : Bytes
  pub rtmrs : List Bytes
  pub report_data : Bytes

pub record QuoteSummary : Type 0 where
  pub header : QuoteHeader
  pub body : QuoteBody

unfoldable pub summary : TdxQuote → QuoteSummary
summary q =
    let h = q.parsed.header in
    let b = q.parsed.td_quote_body in
    record {
      header = record {
        version = h.version;
        attestation_key_type = h.attestation_key_type;
        tee_type = h.tee_type;
        qe_svn = h.qe_svn;
        pce_svn = h.pce_svn;
        qe_vendor_id = h.qe_vendor_id;
        user_data = h.user_data;
      };
      body = record {
        tee_tcb_svn = b.tee_tcb_svn;
        mr_seam = b.mr_seam;
        mr_signer_seam = b.mr_signer_seam;
        seam_attributes = b.seam_attributes;
        td_attributes = b.td_attributes;
        xfam = b.xfam;
        mr_td = b.mr_td;
        mr_config_id = b.mr_config_id;
        mr_owner = b.mr_owner;
        mr_owner_config = b.mr_owner_config;
        rtmrs = b.rtmrs;
        report_data = b.report_data;
      };
    }

abbrev or_nothing : Option Bytes → Bytes
or_nothing none = []
or_nothing (some b) = b

-- `JSON`: no bytes where the summary cannot be encoded.
unfoldable pub summary_json : (QuoteSummary → Option Bytes) → QuoteSummary → Bytes
summary_json marshal s = or_nothing (marshal s)
