-- ===== src/Measurement.antt =====
-- The gates on what was measured, src/measurement.rs. A failure is the branch that raised it,
-- without its text, and so is a warning. Of a request's record, the fields that are read here.
pub mod Ttft
pub mod Audit
use bench_cli.Base.{
  ℕ, zero, suc, ◌+◌, Bool, true, false, not, ◌&&◌, ◌||◌, List, [], ◌∷◌, Option, none, some, is_some,
  Result, ok, err, ◌==◌, ltb, leb, if◌then◌else◌, length, Float,
}
use bench_cli.Chat.Errors.{RequestError, no_output_token, reasoning_truncated}

-- `TtftSource`
pub data TtftSource : Type 0 where
  stream first_byte_approx first_token_fallback : TtftSource

pub data MeasurementError : Type 0 where
  no_measured_requests no_requests_per_stage : MeasurementError
  no_approximation no_visible_ttft no_first_byte no_visible_answer no_first_token : MeasurementError

-- `ensure_warmup_leaves_measurement`
unfoldable pub ensure_warmup_leaves_measurement : ℕ → ℕ → Result Unit MeasurementError
ensure_warmup_leaves_measurement warmup_requests num_requests =
    if num_requests == 0 || leb num_requests warmup_requests
    then err no_measured_requests
    else ok tt

-- `ensure_requests_per_stage`
unfoldable pub ensure_requests_per_stage : ℕ → Result Unit MeasurementError
ensure_requests_per_stage n = if n == 0 then err no_requests_per_stage else ok tt

pub data Warning : Type 0 where
  approximated first_token_used : ℕ → Warning
  not_measured : Warning

-- `TtftAudit`
pub record TtftAudit : Type 0 where
  pub approx_count : ℕ
  pub warning : Option Warning

-- `audit_chat_ttft`
unfoldable pub audit_chat_ttft : Bool → Bool → ℕ → ℕ → ℕ → ℕ → Result TtftAudit MeasurementError
audit_chat_ttft streaming infer measured_successes missing_ttft approx_count
      no_output_token_errors =
    if streaming
      && (ltb 0 missing_ttft || (measured_successes == 0 && ltb 0 no_output_token_errors))
    then (if infer && ltb 0 missing_ttft then err no_approximation else err no_visible_ttft)
    else if not streaming && infer && ltb 0 missing_ttft
    then err no_first_byte
    else if ltb 0 approx_count
    then ok (record { approx_count = approx_count; warning = some (approximated approx_count) })
    else if not streaming && not infer && ltb 0 measured_successes
    then ok (record { approx_count = 0; warning = some not_measured })
    else ok (record { approx_count = 0; warning = none })

-- `ChatTtftAuditInput`, less the two fields that only word a message.
pub record ChatTtftAuditInput : Type 0 where
  pub streaming : Bool
  pub infer_from_first_byte : Bool
  pub first_token_fallback : Bool
  pub allow_missing : Bool
  pub successes : ℕ
  pub missing_successes : ℕ
  pub no_answer : ℕ
  pub unresolved_no_answer : ℕ
  pub reasoning_truncated_count : ℕ
  pub measured : ℕ
  pub first_byte_count : ℕ
  pub first_token_count : ℕ

-- The warning of `audit_chat_ttft_observed`.
unfoldable pub warning_of : ChatTtftAuditInput → Option Warning
warning_of i =
    if ltb 0 i.first_byte_count
    then some (approximated i.first_byte_count)
    else if ltb 0 i.first_token_count
    then some (first_token_used i.first_token_count)
    else if not i.streaming && not i.infer_from_first_byte && ltb 0 i.successes
    then some not_measured
    else none

-- The test of the streaming branch.
unfoldable pub is_missing : ChatTtftAuditInput → Bool
is_missing i =
    ltb 0 i.missing_successes
    || (i.successes == 0 && ltb 0 i.no_answer && ltb 0 i.unresolved_no_answer)

-- `audit_chat_ttft_observed`
unfoldable pub audit_chat_ttft_observed : ChatTtftAuditInput → Result TtftAudit MeasurementError
unfolding warning_of is_missing
audit_chat_ttft_observed i =
    if i.streaming && not i.allow_missing && is_missing i
    then (if ltb 0 i.measured && i.reasoning_truncated_count == i.measured
        then err no_visible_answer
        else err no_first_token)
    else if not i.streaming && i.infer_from_first_byte && ltb 0 i.missing_successes
    then err no_first_byte
    else ok (record { approx_count = i.first_byte_count; warning = warning_of i })

-- `Phase`
pub data Phase : Type 0 where
  warmup measure drain : Phase

abbrev pub is_measure : Phase → Bool
is_measure measure = true
is_measure _ = false

abbrev pub is_source : TtftSource → Option TtftSource → Bool
is_source stream (some stream) = true
is_source first_byte_approx (some first_byte_approx) = true
is_source first_token_fallback (some first_token_fallback) = true
is_source _ _ = false

abbrev pub is_truncated : Option RequestError → Bool
is_truncated (some reasoning_truncated) = true
is_truncated _ = false

abbrev pub is_no_answer : Option RequestError → Bool
is_no_answer (some no_output_token) = true
is_no_answer (some reasoning_truncated) = true
is_no_answer _ = false

module _ {ℓ} {A : Type ℓ} where
  -- `iter().filter(p).count()`
  abbrev pub count : (A → Bool) → List A → ℕ
  count p [] = 0
  count p (x ∷ xs) = let n = count p xs in if p x then suc n else n

  -- `iter().filter(p).collect()`
  abbrev pub filter : (A → Bool) → List A → List A
  filter p [] = []
  filter p (x ∷ xs) = let rest = filter p xs in if p x then x ∷ rest else rest

module _ (F : Float) where
  -- `ResolvedTtft`
  pub record ResolvedTtft : Type 0 where
    pub ttft_s : Option F.F64
    pub source : Option TtftSource

  -- The part of `resolve_ttft` after the streaming branch.
  unfoldable pub infer_ttft : Option F.F64 → Bool → ResolvedTtft
  infer_ttft (some first) true = record { ttft_s = some first; source = some first_byte_approx }
  infer_ttft _ _ = record { ttft_s = none; source = none }

  -- `resolve_ttft`
  unfoldable pub resolve_ttft : Bool → Option F.F64 → Option F.F64 → Bool → ResolvedTtft
  unfolding infer_ttft
  resolve_ttft true (some ttft) first_byte_s infer = record {
    ttft_s = some ttft;
    source = some stream;
  }
  resolve_ttft _ _ first_byte_s infer = infer_ttft first_byte_s infer

  -- `flatten().reduce(f64::min)` of the two.
  unfoldable pub first_any : Option F.F64 → Option F.F64 → Option F.F64
  first_any (some a) (some b) = some (F.min a b)
  first_any (some a) none = some a
  first_any none b = b

  -- `resolve_ttft_with_fallback`
  unfoldable pub resolve_ttft_with_fallback :
      Bool → Option F.F64 → Option F.F64 → Option F.F64 → Bool → Bool → ResolvedTtft
  unfolding resolve_ttft first_any
  resolve_ttft_with_fallback streaming stream_ttft_s first_reasoning_s first_byte_s infer fallback =
      resolve_ttft streaming (first_any stream_ttft_s first_reasoning_s) first_byte_s infer

  pub record RequestRecord : Type 0 where
    pub phase : Phase
    pub error : Option RequestError
    pub ttft_s : Option F.F64
    pub ttft_source : Option TtftSource

  abbrev pub is_success : RequestRecord → Bool
  is_success r = not (is_some r.error)

  abbrev pub is_missing_success : RequestRecord → Bool
  is_missing_success r = is_success r && not (is_some r.ttft_s)

  -- The input that `audit_chat_request_records` builds from the measured records.
  unfoldable pub audit_input : List RequestRecord → Bool → Bool → Bool → Bool → ChatTtftAuditInput
  audit_input rows streaming infer fallback allow_missing = record {
    streaming = streaming;
    infer_from_first_byte = infer;
    first_token_fallback = fallback;
    allow_missing = allow_missing;
    successes = count is_success rows;
    missing_successes = count is_missing_success rows;
    no_answer = count (λ (r : RequestRecord). is_no_answer r.error) rows;
    unresolved_no_answer =
        count (λ (r : RequestRecord). is_no_answer r.error && not (is_some r.ttft_s)) rows;
    reasoning_truncated_count = count (λ (r : RequestRecord). is_truncated r.error) rows;
    measured = length rows;
    first_byte_count =
        count (λ (r : RequestRecord). is_source first_byte_approx r.ttft_source) rows;
    first_token_count =
        count (λ (r : RequestRecord). is_source first_token_fallback r.ttft_source) rows;
  }

  -- `audit_chat_request_records`
  unfoldable pub audit_chat_request_records :
      List RequestRecord → Bool → Bool → Bool → Bool → Result TtftAudit MeasurementError
  unfolding audit_input audit_chat_ttft_observed
  audit_chat_request_records records streaming infer fallback allow_missing =
      let rows = filter (λ (r : RequestRecord). is_measure r.phase) records in
      audit_chat_ttft_observed (audit_input rows streaming infer fallback allow_missing)

  -- `MeasuredTtftRow`
  pub record MeasuredTtftRow : Type 0 where
    pub success : Bool
    pub warmed : Bool
    pub row_ttft_s : Option F.F64
    pub row_source : Option TtftSource

  -- One round of the loop of `count_ttft_gaps`: the successes, the missing and the approximated.
  unfoldable pub note_row : MeasuredTtftRow → ℕ × ℕ × ℕ → ℕ × ℕ × ℕ
  note_row row (successes, missing, approx) =
      let missed = if is_some row.row_ttft_s then missing else missing + 1 in
      if not row.success || row.warmed then (successes, missing, approx) else elim row.row_source [
        | some first_byte_approx ↦ (successes + 1, missing, approx + 1)
        | some stream ↦ (successes + 1, missing, approx)
        | some first_token_fallback ↦ (successes + 1, missing, approx)
        | none ↦ (successes + 1, missed, approx)
      ]

  -- `count_ttft_gaps`
  unfoldable pub count_from : List MeasuredTtftRow → ℕ × ℕ × ℕ → ℕ × ℕ × ℕ
  unfolding note_row
  count_from [] c = c
  count_from (row ∷ rows) c = count_from rows (note_row row c)

  abbrev pub count_ttft_gaps : List MeasuredTtftRow → ℕ × ℕ × ℕ
  count_ttft_gaps rows = count_from rows (0, 0, 0)
