-- ===== src/Tests/Spans.antt =====
-- Intervals of requests, and lengths against targets.
use bench_cli.Base.{ℕ, ◌≡◌, refl, ◌↔◌, true, false, none, some, List, [], ◌∷◌, ok}
use bench_cli.Measurement.{measure, count}
use bench_cli.IslOsl.{
  IslOslTargets, IslOslValidation, MixReportTargets, RequestRecord, given, fill_gaps, resolve,
  validate_records, enforce_osl_gate,
}
use bench_cli.IslOsl.Gate.{
  is_compared, misses_isl, misses_osl, validate_records-gate, IsLength, IsSound, resolve_iff,
}
use bench_cli.TimeWeighted.{RequestSpan, Segment, collect, sort, run, flat}
use bench_cli.TimeWeighted.Blocks.{note_spans, no_blocks}
use bench_cli.TimeWeighted.Closed.{overlapping, sweep-closed}
use bench_cli.TimeWeighted.Counts.{IsCounted, note_spans-IsCounted}
use bench_cli.Tests.Parameters.{whole}

abbrev segments : List (Segment whole)
segments = flat whole 1 4 1 ∷ flat whole 2 9 1 ∷ flat whole 7 7 1 ∷ []

sweep-closed_example :
    let s = run whole (sort whole ((collect whole 8 0 segments).1)) in
    (s.opened ≡ overlapping whole 8 segments)
    × (s.closed ≡ overlapping whole 8 segments)
    × (◌≡◌ {A = ℕ} s.a 0)
    × (◌≡◌ {A = ℕ} s.b 0)
sweep-closed_example = sweep-closed whole segments 8

abbrev spans : List (RequestSpan whole)
spans =
    record {
      start_s = 1;
      latency_s = 6;
      prefill_end_s = some 2;
      input_tokens = some 8;
      output_tokens = some 4;
    }
    ∷ record {
      start_s = 2;
      latency_s = 3;
      prefill_end_s = none;
      input_tokens = none;
      output_tokens = none;
    }
    ∷ []

note_spans-IsCounted_example : IsCounted whole 2 (note_spans whole 0 (no_blocks whole) spans)
note_spans-IsCounted_example = note_spans-IsCounted whole 0 spans

abbrev targets : IslOslTargets whole
targets = given whole (some 8) (some 4) 0 1

abbrev measured : ℕ → RequestRecord whole
measured completion = record {
  phase = measure;
  is_success = true;
  usage_missing = false;
  prompt_tokens = 8;
  completion_tokens = completion;
  tokenized_prompt_tokens = none;
  tokenized_completion_tokens = none;
}

abbrev records : List (RequestRecord whole)
records = measured 4 ∷ measured 9 ∷ []

validate_records-gate_example :
    (v : IslOslValidation whole) × (validate_records whole records targets ≡ some (some v))
    × (v.compared ≡ count (is_compared whole targets) records)
    × (v.isl_mismatch_count ≡ count (misses_isl whole targets) records)
    × (v.osl_mismatch_count ≡ count (misses_osl whole targets) records)
    × ((enforce_osl_gate whole v true ≡ ok false) ↔ (count (misses_osl whole targets) records ≡ 0))
validate_records-gate_example = validate_records-gate whole targets records refl

abbrev report : MixReportTargets whole
report = record {
  isl_target = some 10;
  osl_target = some 5;
  isl_tolerance = some 2;
  osl_tolerance = none;
}

abbrev accepted : IslOslTargets whole
accepted = fill_gaps whole (given whole (some 8) none 0 1) (some report)

resolve_iff_example : (resolve whole (some 8) none 0 1 (some report) ≡ ok accepted) ↔ (
    (fill_gaps whole (given whole (some 8) none 0 1) (some report) ≡ accepted)
    × IsLength whole accepted.isl_target
    × IsLength whole accepted.osl_target
    × IsSound whole accepted.isl_tolerance
    × IsSound whole accepted.osl_tolerance)
resolve_iff_example = resolve_iff whole (some 8) none 0 1 (some report) accepted
