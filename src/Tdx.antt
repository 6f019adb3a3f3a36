-- ===== src/Tdx.antt =====
-- internal/tdx: quote.go and eventlog.go. The parsers and the check of a quote's signature, which are
-- other packages, are the parameter `Quoting`.
pub mod Measured
pub mod Summary
use betterkey.Prelude.{
  ℕ, Bool, true, false, List, [], ◌∷◌, Option, none, some, Bytes, str, same, length, get_elem?,
  if◌then◌else◌,
}
use betterkey.Common.Hex.{encode_to_string}
use betterkey.Common.Result.{Result, ok, err, panic, failed, ◌>>=◌, ◌>>◌, check}
use betterkey.Common.Services.{or_error, deref}

-- `tdx.QuoteV4` of the package that parses quotes, less the signature.
pub record Header : Type 0 where
  pub version : ℕ
  pub attestation_key_type : ℕ
  pub tee_type : ℕ
  pub qe_svn : Bytes
  pub pce_svn : Bytes
  pub qe_vendor_id : Bytes
  pub user_data : Bytes

pub record TdQuoteBody : Type 0 where
  pub tee_tcb_svn : Bytes
  pub mr_seam : Bytes
  pub mr_signer_seam : Bytes
  pub seam_attributes : Bytes
  pub td_attributes : Bytes
  pub xfam : Bytes
  pub mr_td : Bytes
  pub mr_config_id : Bytes
  pub mr_owner : Bytes
  pub mr_owner_config : Bytes
  pub rtmrs : List Bytes
  pub report_data : Bytes

pub record QuoteV4 : Type 0 where
  pub header : Header
  pub td_quote_body : TdQuoteBody

pub record TdxQuote : Type 0 where
  pub raw : Bytes
  pub parsed : QuoteV4

-- The event types that are looked at.
pub data EventType : Type 0 where
  efi_variable_driver_config efi_platform_firmware_blob2 other_event : EventType

-- An event: its type, its data, and the hashes of its digests.
pub record LogEvent : Type 0 where
  pub type : EventType
  pub event : Bytes
  pub digests : List Bytes

-- `replay` gives the SHA-384 value of a register after the events, and no bytes for one without any.
pub record EventLog : Type 0 where
  pub events : List LogEvent
  pub replay : ℕ → Bytes

pub record Quoting : Type 0 where
  pub decode_base64 : Bytes → Option Bytes
  pub quote_to_proto : Bytes → Option QuoteV4
  pub raw_tdx_quote : Bytes → Bool
  pub parse_event_log : Bytes → Option EventLog
  -- `uefi.NewUefiVariableDataFromBytes`, whose error is dropped, then `Name.String()`.
  pub variable_name : Bytes → Bytes

abbrev pub efi_secure_boot_hash : Bytes
efi_secure_boot_hash =
    str
      "2cded0c6f453d4c6f59c5e14ec61abc6b018314540a2367cba326a52aa2b315ccc08ce68a816ce09c6ef2ac7e514ae1f"

abbrev pub is_driver_config : EventType → Bool
is_driver_config efi_variable_driver_config = true
is_driver_config efi_platform_firmware_blob2 = false
is_driver_config other_event = false

abbrev pub is_firmware_blob : EventType → Bool
is_firmware_blob efi_variable_driver_config = false
is_firmware_blob efi_platform_firmware_blob2 = true
is_firmware_blob other_event = false

-- `event.GetDigests()[0].Hash`; without a digest the index is out of range.
abbrev pub first_hash : LogEvent → Result Bytes
first_hash e = deref (get_elem? e.digests 0)

unfoldable pub verify_report_data : TdxQuote → Bytes → Result (Unit {0})
verify_report_data q expected =
    check (same q.parsed.td_quote_body.report_data expected)
      (failed (str "report data does not match"))

abbrev match_rtmr : Option Bytes → Bytes → Result (Unit {0})
match_rtmr none expected = err (failed (str "invalid RTMR index"))
match_rtmr (some actual) expected =
    check (same actual expected) (failed (str "RTMR does not match"))

unfoldable pub verify_rtmr : TdxQuote → ℕ → Bytes → Result (Unit {0})
verify_rtmr q index expected = match_rtmr (get_elem? q.parsed.td_quote_body.rtmrs index) expected

unfoldable pub verify_rtmrs : TdxQuote → Bytes → Bytes → Bytes → Result (Unit {0})
unfolding verify_rtmr
verify_rtmrs q rtmr0 rtmr1 rtmr2 = do
  verify_rtmr q 0 rtmr0
  verify_rtmr q 1 rtmr1
  verify_rtmr q 2 rtmr2

unfoldable pub get_rtmr : TdxQuote → ℕ → Result Bytes
get_rtmr q index =
    or_error (get_elem? q.parsed.td_quote_body.rtmrs index) (str "invalid RTMR index")

-- `verifyRTMRs` of eventlog.go.
unfoldable pub verify_replay : EventLog → TdxQuote → Result (Unit {0})
unfolding verify_rtmrs
verify_replay e quote = verify_rtmrs quote (e.replay 0) (e.replay 1) (e.replay 2)

-- The loop of `cfv`: the first firmware blob decides.
unfoldable pub cfv : List LogEvent → Result Bytes
cfv [] = err (failed (str "firmware measurement (CFV) not found in event log"))
cfv (e ∷ es) = let rest = cfv es in if is_firmware_blob e.type then first_hash e else rest

module _ (t : Quoting) where
  unfoldable pub new_tdx_quote : Bytes → Result TdxQuote
  new_tdx_quote [] = err (failed (str "empty quote provided"))
  new_tdx_quote (b ∷ bs) = do
    parsed ← or_error (t.quote_to_proto (b ∷ bs)) (str "parsing TDX quote")
    ok (record { raw = b ∷ bs; parsed = parsed })

  -- `Verify` of quote.go.
  unfoldable pub verify_quote : TdxQuote → Result (Unit {0})
  verify_quote q = check (t.raw_tdx_quote q.raw) (failed (str "verify"))

  unfoldable pub verify_chain : TdxQuote → Bytes → Bytes → Bytes → Bytes → Result (Unit {0})
  unfolding verify_quote verify_report_data verify_rtmrs
  verify_chain q report_data rtmr0 rtmr1 rtmr2 = do
    verify_quote q
    verify_report_data q report_data
    verify_rtmrs q rtmr0 rtmr1 rtmr2

  unfoldable pub new_event_log : Bytes → Result EventLog
  new_event_log text = do
    content ← or_error (t.decode_base64 text) (str "invalid event log")
    or_error (t.parse_event_log content) (str "failed to parse event log")

  -- The name of the variable that a driver configuration event measures is SecureBoot.
  abbrev pub is_secure_boot : LogEvent → Bool
  is_secure_boot e =
      if is_driver_config e.type then same (t.variable_name e.event) (str "SecureBoot") else false

  -- The loop of `secureBootEnabled`: the first such event decides.
  unfoldable pub secure_boot_enabled : List LogEvent → Result Bool
  secure_boot_enabled [] = ok false
  secure_boot_enabled (e ∷ es) =
      let rest = secure_boot_enabled es in
      if is_secure_boot e
      then (do
        hash ← first_hash e
        check (same (encode_to_string hash) efi_secure_boot_hash)
            (failed (str "secure boot digest mismatch"))
        ok true)
      else rest

  -- `Verify` of eventlog.go.
  unfoldable pub verify_event_log : EventLog → TdxQuote → Result Bytes
  unfolding verify_replay secure_boot_enabled cfv
  verify_event_log e quote = do
    verify_replay e quote
    enabled ← secure_boot_enabled e.events
    check enabled (failed (str "secure boot is not enabled"))
    cfv e.events
