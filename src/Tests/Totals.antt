-- ===== src/Tests/Totals.antt =====
-- The tokens of two records, of which one has no usage.
use bench_cli.Base.{true, false, none, some, [], ◌∷◌}
use bench_cli.Summary.{RequestRecord, token_sum_accounting}
use bench_cli.Summary.Tokens.{IsAccounted, token_sum_accounting-IsAccounted}

abbrev served : RequestRecord
served = record {
  prompt_tokens = 7;
  completion_tokens = 5;
  total_tokens = 12;
  tokenized_prompt_tokens = none;
  tokenized_completion_tokens = none;
  usage_missing = false;
  usage_prompt_tokens_present = some true;
  usage_completion_tokens_present = some true;
}

abbrev estimated : RequestRecord
estimated = record {
  prompt_tokens = 0;
  completion_tokens = 0;
  total_tokens = 0;
  tokenized_prompt_tokens = some 6;
  tokenized_completion_tokens = some 4;
  usage_missing = true;
  usage_prompt_tokens_present = none;
  usage_completion_tokens_present = none;
}

token_sum_accounting-IsAccounted_example :
    IsAccounted
      (λ r. (r.completion_tokens, r.tokenized_completion_tokens))
      (served ∷ estimated ∷ [])
      (token_sum_accounting
        (λ r. (r.completion_tokens, r.tokenized_completion_tokens))
        (served ∷ estimated ∷ []))
token_sum_accounting-IsAccounted_example =
    token_sum_accounting-IsAccounted (λ r. (r.completion_tokens, r.tokenized_completion_tokens))
      (served ∷ estimated ∷ [])
