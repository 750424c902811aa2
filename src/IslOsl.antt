-- ===== src/IslOsl.antt =====
-- Measured prompt and completion lengths against targets, src/isl_osl.rs. The mix report, which is
-- read from a file, is an argument. Of a request's record, the fields that are read here.
pub mod Gate
use bench_cli.Base.{
  ℕ, zero, suc, ◌+◌, Bool, true, false, not, ◌&&◌, ◌||◌, Option, none, some, or_else, map_some,
  and_then, is_some, is_some_and, first, find, List, [], ◌∷◌, ◌++◌, map, length, Result, ok, err,
  ◌==◌, if◌then◌else◌, Float,
}
use bench_cli.Stats.{DistSummary, from_values}
use bench_cli.Measurement.{Phase, is_measure}

pub data TargetSource : Type 0 where
  cli mix_report : TargetSource

pub data Basis : Type 0 where
  server_usage tokenizer : Basis

abbrev pub is_tokenizer : Basis → Bool
is_tokenizer server_usage = false
is_tokenizer tokenizer = true

-- The checks of `IslOslTargets::resolve`.
pub data TargetError : Type 0 where
  bad_isl_target bad_osl_target bad_isl_tolerance bad_osl_tolerance : TargetError

module _ (F : Float) where
  -- `IslOslTargets`
  pub record IslOslTargets : Type 0 where
    pub isl_target : Option F.F64
    pub osl_target : Option F.F64
    pub isl_tolerance : F.F64
    pub osl_tolerance : F.F64
    pub source : Option TargetSource

  -- `MixReportTargets`
  pub record MixReportTargets : Type 0 where
    pub isl_target : Option F.F64
    pub osl_target : Option F.F64
    pub isl_tolerance : Option F.F64
    pub osl_tolerance : Option F.F64

  -- `IslOslValidation`
  pub record IslOslValidation : Type 0 where
    pub isl_target : Option F.F64
    pub osl_target : Option F.F64
    pub isl_tolerance : F.F64
    pub osl_tolerance : F.F64
    pub source : Option TargetSource
    pub length_basis : Option Basis
    pub isl_mean : Option F.F64
    pub isl_p50 : Option F.F64
    pub osl_mean : Option F.F64
    pub osl_p50 : Option F.F64
    pub isl_mismatch_count : ℕ
    pub osl_mismatch_count : ℕ
    pub compared : ℕ

  -- `RequestRecord`
  pub record RequestRecord : Type 0 where
    pub phase : Phase
    pub is_success : Bool
    pub usage_missing : Bool
    pub prompt_tokens : ℕ
    pub completion_tokens : ℕ
    pub tokenized_prompt_tokens : Option ℕ
    pub tokenized_completion_tokens : Option ℕ

  -- `IslOslTargets::is_active`
  unfoldable pub is_active : IslOslTargets → Bool
  is_active t = is_some t.isl_target || is_some t.osl_target

  -- A tolerance of the report, in place of zero.
  unfoldable pub fill_tolerance : F.F64 → Option F.F64 → F.F64
  fill_tolerance tolerance none = tolerance
  fill_tolerance tolerance (some tol) = if F.eq tolerance (F.of_nat 0) then tol else tolerance

  unfoldable pub fill_source : IslOslTargets → Option TargetSource
  unfolding is_active
  fill_source t = if not (is_some t.source) && is_active t then some mix_report else t.source

  -- The gaps that a mix report fills.
  unfoldable pub fill_gaps : IslOslTargets → Option MixReportTargets → IslOslTargets
  unfolding fill_tolerance fill_source
  fill_gaps t none = t
  fill_gaps t (some report) =
      let filled : IslOslTargets = record {
        isl_target = or_else t.isl_target report.isl_target;
        osl_target = or_else t.osl_target report.osl_target;
        isl_tolerance = fill_tolerance t.isl_tolerance report.isl_tolerance;
        osl_tolerance = fill_tolerance t.osl_tolerance report.osl_tolerance;
        source = t.source;
      } in
      record {
        isl_target = filled.isl_target;
        osl_target = filled.osl_target;
        isl_tolerance = filled.isl_tolerance;
        osl_tolerance = filled.osl_tolerance;
        source = fill_source filled;
      }

  abbrev pub is_bad : F.F64 → Bool
  is_bad v = not (F.is_finite v) || F.lt v (F.of_nat 0)

  unfoldable pub check_targets : IslOslTargets → Result IslOslTargets TargetError
  check_targets t =
      if is_some_and t.isl_target is_bad
      then err bad_isl_target
      else if is_some_and t.osl_target is_bad
      then err bad_osl_target
      else if is_bad t.isl_tolerance
      then err bad_isl_tolerance
      else if is_bad t.osl_tolerance
      then err bad_osl_tolerance
      else ok t

  -- The targets of the command line.
  abbrev pub given : Option F.F64 → Option F.F64 → F.F64 → F.F64 → IslOslTargets
  given cli_isl cli_osl isl_tolerance osl_tolerance = record {
    isl_target = cli_isl;
    osl_target = cli_osl;
    isl_tolerance = isl_tolerance;
    osl_tolerance = osl_tolerance;
    source = if is_some cli_isl || is_some cli_osl then some cli else none;
  }

  -- `IslOslTargets::resolve`
  unfoldable pub resolve :
      Option F.F64
      → Option F.F64
      → F.F64
      → F.F64
      → Option MixReportTargets
      → Result IslOslTargets TargetError
  unfolding fill_gaps check_targets
  resolve cli_isl cli_osl isl_tolerance osl_tolerance report =
      check_targets (fill_gaps (given cli_isl cli_osl isl_tolerance osl_tolerance) report)

  abbrev counted : Bool → ℕ → Option ℕ → Option (F.F64 × Basis)
  counted usage_missing server tokenized =
      if usage_missing
      then map_some tokenized (λ tokens. (F.of_nat tokens, tokenizer))
      else some (F.of_nat server, server_usage)

  -- `measured_isl`
  unfoldable pub measured_isl : RequestRecord → Option (F.F64 × Basis)
  measured_isl r = counted r.usage_missing r.prompt_tokens r.tokenized_prompt_tokens

  -- `measured_osl`
  unfoldable pub measured_osl : RequestRecord → Option (F.F64 × Basis)
  measured_osl r = counted r.usage_missing r.completion_tokens r.tokenized_completion_tokens

  -- `outside_tolerance`
  unfoldable pub outside_tolerance : F.F64 → F.F64 → F.F64 → Bool
  outside_tolerance value target tolerance = F.lt tolerance (F.abs (F.sub value target))

  -- Whether a length that is known misses a target that is set.
  unfoldable pub is_mismatch : Option F.F64 → F.F64 → Option F.F64 → Bool
  unfolding outside_tolerance
  is_mismatch target tolerance value =
      is_some_and target (λ t. is_some_and value (λ v. outside_tolerance v t tolerance))

  abbrev pub Pair : Type 0
  Pair = Option F.F64 × Option F.F64

  -- The two counts of `summarize_pairs`, from the counts so far.
  unfoldable pub mismatches : IslOslTargets → ℕ × ℕ → List Pair → ℕ × ℕ
  unfolding is_mismatch
  mismatches t counts [] = counts
  mismatches t (isl_count, osl_count) ((isl, osl) ∷ pairs) =
      mismatches t
        (
          if is_mismatch t.isl_target t.isl_tolerance isl then suc isl_count else isl_count,
          if is_mismatch t.osl_target t.osl_tolerance osl then suc osl_count else osl_count,
        )
        pairs

  -- `summarize_pairs`, unless a summary panics.
  unfoldable pub summarize_pairs :
      IslOslTargets
      → List F.F64
      → List F.F64
      → ℕ
      → List Pair
      → Option Basis
      → Option IslOslValidation
  unfolding mismatches from_values
  summarize_pairs t isl_vals osl_vals compared pairs length_basis =
      let counts = mismatches t (0, 0) pairs in
      and_then (from_values F isl_vals) (λ isl_dist. map_some (from_values F osl_vals) (λ osl_dist.
        record {
          isl_target = t.isl_target;
          osl_target = t.osl_target;
          isl_tolerance = t.isl_tolerance;
          osl_tolerance = t.osl_tolerance;
          source = t.source;
          length_basis = length_basis;
          isl_mean = isl_dist.avg;
          isl_p50 = isl_dist.p50;
          osl_mean = osl_dist.avg;
          osl_p50 = osl_dist.p50;
          isl_mismatch_count = counts.0;
          osl_mismatch_count = counts.1;
          compared = compared;
        }))

  -- The measured successes.
  unfoldable pub successes_of : List RequestRecord → List RequestRecord
  successes_of [] = []
  successes_of (r ∷ rs) =
      let rest = successes_of rs in if is_measure r.phase && r.is_success then r ∷ rest else rest

  -- The lengths that are known, `filter_map`.
  unfoldable pub lengths_of :
      (RequestRecord → Option (F.F64 × Basis)) → List RequestRecord → List (F.F64 × Basis)
  lengths_of length_of [] = []
  lengths_of length_of (r ∷ rs) =
      let rest = lengths_of length_of rs in
      elim (length_of r) [ none ↦ rest | some pair ↦ pair ∷ rest ]

  abbrev pub bases : List (F.F64 × Basis) → List Basis
  bases = map (λ (pair : F.F64 × Basis). pair.1)

  abbrev pub values : List (F.F64 × Basis) → List F.F64
  values = map (λ (pair : F.F64 × Basis). pair.0)

  abbrev pub value_of : Option (F.F64 × Basis) → Option F.F64
  value_of pair = map_some pair (λ (p : F.F64 × Basis). p.0)

  abbrev pub pair_of : RequestRecord → Pair
  unfolding measured_isl measured_osl
  pair_of r = (value_of (measured_isl r), value_of (measured_osl r))

  -- The validation of `validate_records`, for targets that are set.
  unfoldable pub validation_of : List RequestRecord → IslOslTargets → Option IslOslValidation
  unfolding successes_of lengths_of measured_isl measured_osl summarize_pairs
  validation_of records t =
      let successes = successes_of records in
      let isl_pairs = lengths_of measured_isl successes in
      let osl_pairs = lengths_of measured_osl successes in
      let length_basis =
        or_else (find is_tokenizer (bases isl_pairs ++ bases osl_pairs))
          (or_else (first (bases isl_pairs)) (first (bases osl_pairs))) in
      summarize_pairs t (values isl_pairs) (values osl_pairs) (length successes)
        (map pair_of successes) length_basis

  -- `validate_records`: its result, unless a summary panics.
  unfoldable pub validate_records :
      List RequestRecord → IslOslTargets → Option (Option IslOslValidation)
  unfolding is_active validation_of
  validate_records records t =
      if is_active t then map_some (validation_of records t) some else some none

  -- `validate_token_counts`
  unfoldable pub validate_token_counts :
      List (ℕ × ℕ) → IslOslTargets → Option (Option IslOslValidation)
  unfolding is_active summarize_pairs
  validate_token_counts rows t =
      let isl = map (λ (row : ℕ × ℕ). F.of_nat (row.0)) rows in
      let osl = map (λ (row : ℕ × ℕ). F.of_nat (row.1)) rows in
      let pairs = map (λ (row : ℕ × ℕ). (some (F.of_nat (row.0)), some (F.of_nat (row.1)))) rows in
      let validation = summarize_pairs t isl osl (length rows) pairs (some server_usage) in
      if is_active t then map_some validation some else some none

  -- `enforce_osl_gate`: whether it prints a warning, or an error.
  unfoldable pub enforce_osl_gate : IslOslValidation → Bool → Result Bool Unit
  enforce_osl_gate v fail_on_osl_mismatch =
      if not (is_some v.osl_target) || v.osl_mismatch_count == 0
      then ok false
      else if fail_on_osl_mismatch
      then err tt
      else ok true
