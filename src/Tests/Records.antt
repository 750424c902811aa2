-- ===== src/Tests/Records.antt =====
-- Recorded prompts that are replayed, and records that are audited.
use bench_cli.Base.{
  ℕ, ◌+◌, ◌≤◌, ◌≡◌, refl, true, false, none, some, List, [], ◌∷◌, map, All, ok, err, length, arith,
}
use bench_cli.Text.{Text, codes, is_empty}
use bench_cli.Prompts.{
  PromptSlotEntry, out_of_range, slot_index, entry_of, sequence_log, resolve_slot,
  resolve_prescribed_order, apply_prescribed_sequence,
}
use bench_cli.Prompts.Replay.{replay_lem, resolve_slot-out_of_range}
use bench_cli.Measurement.{
  RequestRecord, MeasuredTtftRow, TtftAudit, stream, first_byte_approx, measure, warmup, count,
  audit_input, audit_chat_request_records, audit_chat_ttft_observed, is_missing, warning_of,
  count_ttft_gaps,
}
use bench_cli.Measurement.Audit.{
  is_uncovered, is_counted, is_gap, is_approximated, audit_chat_request_records-covered,
  count_ttft_gaps-counts,
}
use bench_cli.Tests.Parameters.{whole}

-- A fingerprint that is never empty.
abbrev print : Text → Text
print p = 1 ∷ p

print-filled : (p : Text) → is_empty (print p) ≡ false
unfolding is_empty
print-filled p = refl

abbrev pool : List Text
pool = codes "x" ∷ codes "y" ∷ []

abbrev other_pool : List Text
other_pool = codes "z" ∷ codes "y" ∷ codes "x" ∷ []

abbrev entry : ℕ → ℕ → Text → ℕ → PromptSlotEntry
entry seq index prompt cohort = record {
  seq = seq;
  prompt_index = index;
  prompt_sha256_16 = print prompt;
  prompt_bytes = length prompt;
  cohort = cohort;
}

abbrev log : List PromptSlotEntry
log = entry 0 0 (codes "x") 0 ∷ entry 1 1 (codes "y") 0 ∷ entry 2 0 (codes "x") 1 ∷ []

log-recorded : sequence_log print length pool 2 none 0 3 ≡ ok log
unfolding sequence_log entry_of slot_index
log-recorded = refl

replay_lem_example :
    (order : List ℕ) × (prompts : List Text) × (resolve_prescribed_order print log other_pool
      ≡ ok order)
    × (apply_prescribed_sequence other_pool order ≡ ok prompts)
    × (map print prompts ≡ map (λ (e : PromptSlotEntry). e.prompt_sha256_16) log)
replay_lem_example =
    replay_lem print length print-filled pool other_pool 2 3 none log log-recorded
      ((2, refl), ((1, refl), tt))

-- The last of three slots, with an index and no fingerprint.
abbrev bare : PromptSlotEntry
bare = record { seq = 2; prompt_index = 9; prompt_sha256_16 = []; prompt_bytes = 0; cohort = 0 }

resolve_slot-out_of_range_example :
    resolve_slot print pool (λ _. 0) 2 bare ≡ err (out_of_range 0 9 2)
resolve_slot-out_of_range_example =
    resolve_slot-out_of_range print length print-filled pool (λ _. 0) 2 bare refl (omega arith)
      (omega arith)

abbrev warm : RequestRecord whole
warm = record { phase = warmup; error = none; ttft_s = none; ttft_source = none }

abbrev measured : RequestRecord whole
measured = record { phase = measure; error = none; ttft_s = some 4; ttft_source = some stream }

abbrev passed : TtftAudit
passed = record { approx_count = 0; warning = none }

audit-passed :
    audit_chat_request_records whole (warm ∷ measured ∷ []) true false false false ≡ ok passed
unfolding audit_chat_request_records audit_input audit_chat_ttft_observed is_missing warning_of
audit-passed = refl

audit_chat_request_records-covered_example :
    All (λ r. is_uncovered whole r ≡ false) (warm ∷ measured ∷ [])
audit_chat_request_records-covered_example =
    audit_chat_request_records-covered whole (warm ∷ measured ∷ []) false false passed audit-passed

abbrev rows : List (MeasuredTtftRow whole)
rows =
    record {
      success = true;
      warmed = false;
      row_ttft_s = some 2;
      row_source = some first_byte_approx;
    }
    ∷ record { success = true; warmed = false; row_ttft_s = none; row_source = none }
    ∷ record { success = true; warmed = true; row_ttft_s = none; row_source = none }
    ∷ []

count_ttft_gaps-counts_example :
    (count_ttft_gaps whole rows ≡ (
      count (is_counted whole) rows,
      count (is_gap whole) rows,
      count (is_approximated whole) rows,
    ))
    × (count (is_gap whole) rows + count (is_approximated whole) rows
        ≤ count (is_counted whole) rows)
count_ttft_gaps-counts_example = count_ttft_gaps-counts whole rows
