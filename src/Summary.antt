-- ===== src/Summary.antt =====
-- The tokens of a run, src/summary.rs: how the counts of the successes are summed and where the sum
-- comes from.
pub mod Tokens
use bench_cli.Base.{
  ℕ, suc, ◌+◌, min, Bool, true, false, ◌&&◌, ◌||◌, Option, none, some, List, [], ◌∷◌, ltb,
  if◌then◌else◌, map_some, any,
}
use bench_cli.Text.{is_empty}

abbrev pub u64_max : ℕ
u64_max = 18446744073709551615

-- `u64::saturating_add`
abbrev pub saturating_add : ℕ → ℕ → ℕ
saturating_add a b = min u64_max (a + b)

-- `RequestRecord`, the fields that the sums read.
pub record RequestRecord : Type 0 where
  pub prompt_tokens : ℕ
  pub completion_tokens : ℕ
  pub total_tokens : ℕ
  pub tokenized_prompt_tokens : Option ℕ
  pub tokenized_completion_tokens : Option ℕ
  pub usage_missing : Bool
  pub usage_prompt_tokens_present : Option Bool
  pub usage_completion_tokens_present : Option Bool

-- The sources of a count, which the program writes as text.
pub data TokenSource : Type 0 where
  server_usage tokenizer_fallback mixed : TokenSource

-- `TokenSamples`, its values as counts.
pub record TokenSamples : Type 0 where
  pub values : List ℕ
  pub server : ℕ
  pub tokenizer : ℕ

-- `TokenSum`
pub record TokenSum : Type 0 where
  pub usage_missing_count : ℕ
  pub sum : ℕ
  pub source : Option TokenSource

-- `total`
unfoldable pub fold_total : ℕ → List ℕ → ℕ
fold_total acc [] = acc
fold_total acc (v ∷ values) = fold_total (saturating_add acc v) values

unfoldable pub total_of : List ℕ → Option ℕ
unfolding fold_total
total_of values = if is_empty values then none else some (fold_total 0 values)

-- `TokenSamples::source`
unfoldable pub samples_source : TokenSamples → Option TokenSource
samples_source s =
    if ltb 0 s.server
    then (if ltb 0 s.tokenizer then some mixed else some server_usage)
    else if ltb 0 s.tokenizer
    then some tokenizer_fallback
    else none

abbrev pub has_tokens : RequestRecord → Bool
has_tokens r = ltb 0 r.prompt_tokens || ltb 0 r.completion_tokens || ltb 0 r.total_tokens

-- `record_tokens`
unfoldable pub record_tokens : RequestRecord → ℕ → Option ℕ → Option ℕ
record_tokens r server tokenized =
    if r.usage_missing then tokenized else if has_tokens r then some server else none

-- `record_isl_tokens`
unfoldable pub record_isl_tokens : RequestRecord → Option ℕ
unfolding record_tokens
record_isl_tokens r = record_tokens r r.prompt_tokens r.tokenized_prompt_tokens

-- `record_osl_tokens`
unfoldable pub record_osl_tokens : RequestRecord → Option ℕ
unfolding record_tokens
record_osl_tokens r = record_tokens r r.completion_tokens r.tokenized_completion_tokens

-- The field that a caller sums: the server's count and the tokenizer's.
abbrev pub Pick : Type 0
Pick = RequestRecord → ℕ × Option ℕ

-- What the loop of `token_sum_accounting` has seen.
pub record Sums : Type 0 where
  pub usage_missing_count : ℕ
  pub sum : ℕ
  pub used_tokenizer_fallback : Bool
  pub any_unfilled_gap : Bool

abbrev pub no_sums : Sums
no_sums = record {
  usage_missing_count = 0;
  sum = 0;
  used_tokenizer_fallback = false;
  any_unfilled_gap = false;
}

-- One record: whether its usage is missing, the server's count and the tokenizer's.
unfoldable pub note_row : Bool → ℕ → Option ℕ → Sums → Sums
note_row true server (some tokens) s = record {
  usage_missing_count = suc s.usage_missing_count;
  sum = saturating_add s.sum tokens;
  used_tokenizer_fallback = true;
  any_unfilled_gap = s.any_unfilled_gap;
}
note_row true server none s = record {
  usage_missing_count = suc s.usage_missing_count;
  sum = s.sum;
  used_tokenizer_fallback = s.used_tokenizer_fallback;
  any_unfilled_gap = true;
}
note_row false server tokenized s = record {
  usage_missing_count = s.usage_missing_count;
  sum = saturating_add s.sum server;
  used_tokenizer_fallback = s.used_tokenizer_fallback;
  any_unfilled_gap = s.any_unfilled_gap;
}

unfoldable pub sum_rows : Pick → List RequestRecord → Sums → Sums
unfolding note_row
sum_rows pick [] s = s
sum_rows pick (r ∷ rs) s =
    let picked = pick r in sum_rows pick rs (note_row r.usage_missing picked.0 picked.1 s)

abbrev pub is_present : Option Bool → Bool
is_present (some b) = b
is_present none = false

-- Both fields of the usage were there.
abbrev pub is_reported : RequestRecord → Bool
is_reported r =
    is_present r.usage_prompt_tokens_present && is_present r.usage_completion_tokens_present

-- `token_sum_accounting`
unfoldable pub token_sum_accounting : Pick → List RequestRecord → TokenSum
unfolding sum_rows
token_sum_accounting pick successes =
    let s = sum_rows pick successes no_sums in
    record {
      usage_missing_count = s.usage_missing_count;
      sum = s.sum;
      source =
          if s.any_unfilled_gap || is_empty successes
          then none
          else if s.used_tokenizer_fallback
          then some tokenizer_fallback
          else if ltb 0 s.sum || ltb 0 s.usage_missing_count || any is_reported successes
          then some server_usage
          else none;
    }

-- `TokenSum::total`
unfoldable pub sum_total : TokenSum → Option ℕ
sum_total t = map_some t.source (λ _. t.sum)
