-- ===== src/Summary/Tokens.antt =====
-- What the sum of a run's tokens is, src/summary.rs.
use bench_cli.Base.{
  ℕ, ◌+◌, min, ◌≡◌, refl, ◌≤◌, Bool, true, false, ◌||◌, ◌&&◌, not, Option, none, some, List, [],
  ◌∷◌, total, arith, ltb, if◌then◌else◌, unwrap_or, is_some, any, map_some, ap, ◌∙◌,
}
use bench_cli.Text.{is_empty}
use bench_cli.Summary.{
  u64_max, RequestRecord, TokenSource, server_usage, tokenizer_fallback, TokenSum, Pick, Sums,
  no_sums, note_row, sum_rows, is_reported, token_sum_accounting, sum_total,
}

module _ (missing : Bool) (server : ℕ) (tokenized : Option ℕ) where
  -- The tokens of a row: the server's count, or of a row without usage the tokenizer's.
  abbrev tokens : ℕ
  tokens = if missing then unwrap_or tokenized 0 else server

  abbrev one_missing : ℕ
  one_missing = if missing then 1 else 0

  abbrev gap : Bool
  gap = missing && not (is_some tokenized)

  abbrev filled : Bool
  filled = missing && is_some tokenized

abbrev pub tokens_of : Pick → RequestRecord → ℕ
tokens_of pick r = tokens r.usage_missing (pick r).0 (pick r).1

abbrev pub missing_of : Pick → RequestRecord → ℕ
missing_of pick r = one_missing r.usage_missing (pick r).0 (pick r).1

-- A row without usage that the tokenizer did not count, and one that it did.
abbrev pub is_gap : Pick → RequestRecord → Bool
is_gap pick r = gap r.usage_missing (pick r).0 (pick r).1

abbrev pub is_filled : Pick → RequestRecord → Bool
is_filled pick r = filled r.usage_missing (pick r).0 (pick r).1

-- What is added to what the loop has seen.
record Added (count sum : ℕ) (filled gap : Bool) (s t : Sums) : Type 0 where
  count_added : t.usage_missing_count ≡ s.usage_missing_count + count
  sum_added : t.sum ≡ min u64_max (s.sum + sum)
  filled_added : t.used_tokenizer_fallback ≡ (s.used_tokenizer_fallback || filled)
  gap_added : t.any_unfilled_gap ≡ (s.any_unfilled_gap || gap)

note_row-Added :
    (missing : Bool) (server : ℕ) (tokenized : Option ℕ) (s : Sums)
    → s.sum ≤ u64_max
    → Added
        (one_missing missing server tokenized)
        (tokens missing server tokenized)
        (filled missing server tokenized)
        (gap missing server tokenized)
        s
        (note_row missing server tokenized s)
unfolding note_row
note_row-Added true server (some n) s h = record {
  count_added = omega arith;
  sum_added = refl;
  filled_added = ground arith;
  gap_added = ground arith;
}
note_row-Added true server none s h = record {
  count_added = omega arith;
  sum_added = omega arith;
  filled_added = ground arith;
  gap_added = ground arith;
}
note_row-Added false server tokenized s h = record {
  count_added = omega arith;
  sum_added = refl;
  filled_added = ground arith;
  gap_added = ground arith;
}

sum_rows-Added :
    (pick : Pick) (rs : List RequestRecord) (s : Sums)
    → s.sum ≤ u64_max
    → Added
        (total (missing_of pick) rs)
        (total (tokens_of pick) rs)
        (any (is_filled pick) rs)
        (any (is_gap pick) rs)
        s
        (sum_rows pick rs s)
unfolding sum_rows
sum_rows-Added pick [] s h = record {
  count_added = omega arith;
  sum_added = omega arith;
  filled_added = ground arith;
  gap_added = ground arith;
}
sum_rows-Added pick (r ∷ rs) s h =
    let next = note_row r.usage_missing (pick r).0 (pick r).1 s in
    let here = note_row-Added r.usage_missing (pick r).0 (pick r).1 s h in
    let rest = sum_rows-Added pick rs next (omega (arith, here.sum_added)) in
    record {
      count_added = omega (arith, here.count_added, rest.count_added);
      sum_added = omega (arith, here.sum_added, rest.sum_added);
      filled_added = ground (arith, here.filled_added, rest.filled_added);
      gap_added = ground (arith, here.gap_added, rest.gap_added);
    }

-- Without a gap and without a count of the tokenizer, no usage is missing.
none_missing :
    (pick : Pick) (rs : List RequestRecord)
    → any (is_gap pick) rs ≡ false
    → any (is_filled pick) rs ≡ false
    → total (missing_of pick) rs ≡ 0
none_missing pick [] g f = refl
none_missing pick (r ∷ rs) g f = ground (arith, none_missing pick rs)

-- The source of a sum: none when a row was not counted or there is no row; the tokenizer when a row
-- needs it; else the server, when it counted a token or reported both fields of a row.
abbrev pub source_of : Pick → List RequestRecord → Option TokenSource
source_of pick rs =
    if any (is_gap pick) rs || is_empty rs
    then none
    else if any (is_filled pick) rs
    then some tokenizer_fallback
    else if ltb 0 (total (tokens_of pick) rs) || any is_reported rs
    then some server_usage
    else none

-- What an account of the tokens of some records says.
pub record IsAccounted (pick : Pick) (rs : List RequestRecord) (t : TokenSum) : Type 0 where
  pub counted : t.usage_missing_count ≡ total (missing_of pick) rs
  pub summed : t.sum ≡ min u64_max (total (tokens_of pick) rs)
  pub sourced : t.source ≡ source_of pick rs
  pub reported :
      sum_total t ≡ map_some (source_of pick rs) (λ _. min u64_max (total (tokens_of pick) rs))

-- The source that `token_sum_accounting` finds.
source-source_of :
    (pick : Pick) (rs : List RequestRecord)
    → (token_sum_accounting pick rs).source ≡ source_of pick rs
unfolding token_sum_accounting
source-source_of pick rs =
    let a = sum_rows-Added pick rs no_sums (omega arith) in
    ground (arith, a.count_added, a.sum_added, a.gap_added, a.filled_added, none_missing pick rs)

-- The account of the tokens of a run counts the records without usage. Its sum adds the server's
-- counts and, for the records without usage, the tokenizer's, up to the largest number of 64 bits.
-- Its source is none when there is no record or one that neither counted; else the tokenizer when a
-- record needed it; else the server when it counted a token or reported both fields of a record; else
-- none. The sum is reported exactly when there is a source.
pub token_sum_accounting-IsAccounted :
    (pick : Pick) (rs : List RequestRecord) → IsAccounted pick rs (token_sum_accounting pick rs)
unfolding sum_total token_sum_accounting
token_sum_accounting-IsAccounted pick rs =
    let a = sum_rows-Added pick rs no_sums (omega arith) in
    let sourced = source-source_of pick rs in
    record {
      counted = omega (arith, a.count_added);
      summed = omega (arith, a.sum_added);
      sourced = sourced;
      reported =
          ap (λ source. map_some source (λ _. (sum_rows pick rs no_sums).sum)) sourced
          ∙ ap (λ sum. map_some (source_of pick rs) (λ _. sum)) (omega (arith, a.sum_added));
    }
