-- ===== src/Tdx/Measured.antt =====
-- What a quote and an event log must say for the checks to pass, said without the loops.
use betterkey.Prelude.{
  ℕ, ◌≡◌, refl, ◌∙◌, ap, inl, inr, Bool, true, false, List, [], ◌∷◌, ◌++◌, Option, none, some, All,
  Bytes, same, same_refl, eq_of_same, Bool-cases, Option-cases, get_elem?,
}
use betterkey.Common.Hex.{encode_to_string}
use betterkey.Common.Result.{Error, ok, check, >>=-eq-ok}
use betterkey.Common.Services.{deref}
use betterkey.Tdx.{
  TdxQuote, LogEvent, EventLog, Quoting, efi_secure_boot_hash, is_firmware_blob, is_secure_boot,
  first_hash, verify_report_data, verify_rtmr, verify_rtmrs, verify_replay, verify_quote,
  verify_chain, cfv, secure_boot_enabled, verify_event_log,
}

-- The first event of the log that passes the test, and the first hash of it.
pub record IsFirst (test : LogEvent → Bool) (events : List LogEvent) (hash : Bytes) : Type 0 where
  pub before : List LogEvent
  pub event : LogEvent
  pub after : List LogEvent
  pub split : events ≡ before ++ event ∷ after
  pub skipped : All (λ e. test e ≡ false) before
  pub passes : test event ≡ true
  pub hashed : get_elem? event.digests 0 ≡ some hash

-- The registers 0, 1 and 2 of the quote are those that the log replays to.
abbrev pub HasRegisters : TdxQuote → Bytes → Bytes → Bytes → Type 0
HasRegisters q r0 r1 r2 =
    (get_elem? q.parsed.td_quote_body.rtmrs 0 ≡ some r0)
    × (get_elem? q.parsed.td_quote_body.rtmrs 1 ≡ some r1)
    × (get_elem? q.parsed.td_quote_body.rtmrs 2 ≡ some r2)

-- The log explains the quote, Secure Boot is measured as enabled, and the firmware hash is the result.
pub record IsMeasured (t : Quoting) (e : EventLog) (q : TdxQuote) (cfv_hash : Bytes) : Type 0 where
  pub registers : HasRegisters q (e.replay 0) (e.replay 1) (e.replay 2)
  pub boot_hash : Bytes
  pub booted : IsFirst (is_secure_boot t) e.events boot_hash
  pub enabled : encode_to_string boot_hash ≡ efi_secure_boot_hash
  pub firmware : IsFirst (λ ev. is_firmware_blob ev.type) e.events cfv_hash

IsFirst-cons :
    (test : LogEvent → Bool) (e : LogEvent) (es : List LogEvent) (hash : Bytes)
    → test e ≡ false
    → IsFirst test es hash
    → IsFirst test (e ∷ es) hash
IsFirst-cons test e es hash h f = record {
  before = e ∷ f.before;
  event = f.event;
  after = f.after;
  split = ap (λ t. e ∷ t) f.split;
  skipped = (h, f.skipped);
  passes = f.passes;
  hashed = f.hashed;
}

IsFirst-head :
    (test : LogEvent → Bool) (e : LogEvent) (es : List LogEvent) (hash : Bytes)
    → test e ≡ true
    → get_elem? e.digests 0 ≡ some hash
    → IsFirst test (e ∷ es) hash
IsFirst-head test e es hash h g = record {
  before = [];
  event = e;
  after = es;
  split = refl;
  skipped = tt;
  passes = h;
  hashed = g;
}

deref-eq-ok : (o : Option Bytes) {b : Bytes} → deref o ≡ ok b → o ≡ some b
deref-eq-ok none e = cc e
deref-eq-ok (some a) e = cc e

cfv_sound :
    (es : List LogEvent) (hash : Bytes)
    → cfv es ≡ ok hash
    → IsFirst (λ ev. is_firmware_blob ev.type) es hash
unfolding cfv
cfv_sound [] hash e = cc e
cfv_sound (ev ∷ es) hash e = elim (Bool-cases (is_firmware_blob ev.type)) [
  | inl h ↦
      IsFirst-head (λ ev. is_firmware_blob ev.type) ev es hash h
        (deref-eq-ok (get_elem? ev.digests 0) (rw h at e))
  | inr h ↦
      IsFirst-cons (λ ev. is_firmware_blob ev.type) ev es hash h (cfv_sound es hash (rw h at e))
]

cfv-first :
    (before : List LogEvent) (event : LogEvent) (after : List LogEvent) (hash : Bytes)
    → All (λ ev. is_firmware_blob ev.type ≡ false) before
    → is_firmware_blob event.type ≡ true
    → get_elem? event.digests 0 ≡ some hash
    → cfv (before ++ event ∷ after) ≡ ok hash
unfolding cfv
cfv-first [] event after hash skipped passes hashed = rw (passes, hashed)
cfv-first (ev ∷ before) event after hash skipped passes hashed =
    rw (skipped.0) (cfv-first before event after hash skipped.1 passes hashed)

module _ (t : Quoting) where
  secure_boot_sound :
      (es : List LogEvent)
      → secure_boot_enabled t es ≡ ok true
      → (hash : Bytes) × IsFirst (is_secure_boot t) es hash
        × (encode_to_string hash ≡ efi_secure_boot_hash)
  unfolding secure_boot_enabled
  secure_boot_sound [] e = cc e
  secure_boot_sound (ev ∷ es) e = elim (Bool-cases (is_secure_boot t ev)) [
    | inl h ↦
        let (hash, got, rest) = >>=-eq-ok (first_hash ev) _ (rw h at e) in
        elim (Bool-cases (same (encode_to_string hash) efi_secure_boot_hash)) [
          | inl s ↦ (
            hash,
            IsFirst-head (is_secure_boot t) ev es hash h (deref-eq-ok (get_elem? ev.digests 0) got),
            eq_of_same (encode_to_string hash) efi_secure_boot_hash s,
          )
          | inr s ↦ cc (rw s at rest)
        ]
    | inr h ↦
        let (hash, first, enabled) = secure_boot_sound es (rw h at e) in
        (hash, IsFirst-cons (is_secure_boot t) ev es hash h first, enabled)
  ]

  secure_boot-first :
      (before : List LogEvent) (event : LogEvent) (after : List LogEvent) (hash : Bytes)
      → All (λ ev. is_secure_boot t ev ≡ false) before
      → is_secure_boot t event ≡ true
      → get_elem? event.digests 0 ≡ some hash
      → encode_to_string hash ≡ efi_secure_boot_hash
      → secure_boot_enabled t (before ++ event ∷ after) ≡ ok true
  unfolding secure_boot_enabled
  secure_boot-first [] event after hash skipped passes hashed enabled =
      rw (passes, hashed, enabled, same_refl efi_secure_boot_hash)
  secure_boot-first (ev ∷ before) event after hash skipped passes hashed enabled =
      rw (skipped.0) (secure_boot-first before event after hash skipped.1 passes hashed enabled)

check-eq-ok : (b : Bool) (e : Error) {u : Unit {0}} → check b e ≡ ok u → b ≡ true
check-eq-ok true e h = refl
check-eq-ok false e h = cc h

verify_rtmr_sound :
    (q : TdxQuote) (i : ℕ) (r : Bytes)
    → verify_rtmr q i r ≡ ok tt
    → get_elem? q.parsed.td_quote_body.rtmrs i ≡ some r
unfolding verify_rtmr
verify_rtmr_sound q i r e = elim (Option-cases (get_elem? q.parsed.td_quote_body.rtmrs i)) [
  | inl h ↦ cc (rw h at e)
  | inr (actual, h) ↦ h ∙ ap some (eq_of_same actual r (check-eq-ok (same actual r) _ (rw h at e)))
]

verify_rtmrs_sound :
    (q : TdxQuote) (r0 r1 r2 : Bytes) → verify_rtmrs q r0 r1 r2 ≡ ok tt → HasRegisters q r0 r1 r2
unfolding verify_rtmrs
verify_rtmrs_sound q r0 r1 r2 e =
    let (u, e0, rest) = >>=-eq-ok (verify_rtmr q 0 r0) _ e in
    let (v, e1, e2) = >>=-eq-ok (verify_rtmr q 1 r1) _ rest in
    (verify_rtmr_sound q 0 r0 e0, verify_rtmr_sound q 1 r1 e1, verify_rtmr_sound q 2 r2 e2)

verify_rtmrs_complete :
    (q : TdxQuote) (r0 r1 r2 : Bytes) → HasRegisters q r0 r1 r2 → verify_rtmrs q r0 r1 r2 ≡ ok tt
unfolding verify_rtmrs verify_rtmr
verify_rtmrs_complete q r0 r1 r2 h = rw (h.0, h.1, h.2, same_refl r0, same_refl r1, same_refl r2)

-- The check of an event log passes exactly where the log explains the registers of the quote, its first
-- event on the variable SecureBoot has the hash of the value 1, and its first firmware blob has the
-- hash that is returned.
pub verify_event_log-IsMeasured :
    (t : Quoting) (e : EventLog) (q : TdxQuote) (hash : Bytes)
    → (verify_event_log t e q ≡ ok hash → IsMeasured t e q hash)
      × (IsMeasured t e q hash → verify_event_log t e q ≡ ok hash)
unfolding verify_event_log verify_replay
verify_event_log-IsMeasured t e q hash = (
  λ h.
      let (u, e0, rest) = >>=-eq-ok (verify_replay e q) _ h in
      let (enabled, e1, rest') = >>=-eq-ok (secure_boot_enabled t e.events) _ rest in
      let (v, e2, e3) = >>=-eq-ok (check enabled _) _ rest' in
      let (boot, first, good) =
        secure_boot_sound t e.events (e1 ∙ ap ok (check-eq-ok enabled _ e2)) in
      record {
        registers = verify_rtmrs_sound q (e.replay 0) (e.replay 1) (e.replay 2) e0;
        boot_hash = boot;
        booted = first;
        enabled = good;
        firmware = cfv_sound e.events hash e3;
      },
  λ m.
      let b = m.booted in
      let f = m.firmware in
      let booted : secure_boot_enabled t e.events ≡ ok true =
        ap (secure_boot_enabled t) b.split
        ∙ secure_boot-first t b.before b.event b.after m.boot_hash b.skipped b.passes b.hashed
            m.enabled in
      let blob : cfv e.events ≡ ok hash =
        ap cfv f.split ∙ cfv-first f.before f.event f.after hash f.skipped f.passes f.hashed in
      rw (verify_rtmrs_complete q (e.replay 0) (e.replay 1) (e.replay 2) m.registers, booted, blob),
)

-- `VerifyChain` returns without an error exactly where the signature of the raw quote is valid, its
-- report data is the one that is expected, and so are its first three registers.
pub verify_chain-exact :
    (t : Quoting) (q : TdxQuote) (report_data r0 r1 r2 : Bytes)
    → (verify_chain t q report_data r0 r1 r2 ≡ ok tt
        → (t.raw_tdx_quote q.raw ≡ true)
          × (q.parsed.td_quote_body.report_data ≡ report_data)
          × HasRegisters q r0 r1 r2)
      × ((t.raw_tdx_quote q.raw ≡ true)
            × (q.parsed.td_quote_body.report_data ≡ report_data)
            × HasRegisters q r0 r1 r2
          → verify_chain t q report_data r0 r1 r2 ≡ ok tt)
unfolding verify_chain verify_quote verify_report_data
verify_chain-exact t q report_data r0 r1 r2 = (
  λ h.
      let (u, e0, rest) = >>=-eq-ok (verify_quote t q) _ h in
      let (v, e1, e2) = >>=-eq-ok (verify_report_data q report_data) _ rest in
      (
        check-eq-ok (t.raw_tdx_quote q.raw) _ e0,
        eq_of_same q.parsed.td_quote_body.report_data report_data
            (check-eq-ok (same q.parsed.td_quote_body.report_data report_data) _ e1),
        verify_rtmrs_sound q r0 r1 r2 e2,
      ),
  λ h. rw (h.0, h.1, same_refl report_data, verify_rtmrs_complete q r0 r1 r2 h.2),
)
