-- ===== src/Telemetry/Writer/Tally.antt =====
-- The counters of the kinds of rows, src/telemetry/writer.rs, against the rows themselves.
use bench_cli.Base.{ℕ, suc, ◌+◌, ◌%◌, ◌^◌, ◌≡◌, refl, List, [], ◌∷◌, ◌++◌, total, arith}
use bench_cli.Telemetry.Writer.{
  Row, run, stage, telemetry, request, scrape_error, summary, Kinds, classify, fetch_add,
}

-- How often the counter of a kind goes up for a row.
abbrev pub is_run : Row → ℕ
is_run (run _) = 1
is_run _ = 0

abbrev pub is_stage : Row → ℕ
is_stage (stage _) = 1
is_stage _ = 0

abbrev pub is_telemetry : Row → ℕ
is_telemetry (telemetry _) = 1
is_telemetry _ = 0

abbrev pub is_request : Row → ℕ
is_request (request _) = 1
is_request _ = 0

abbrev pub is_scrape_error : Row → ℕ
is_scrape_error (scrape_error _) = 1
is_scrape_error _ = 0

abbrev pub is_summary : Row → ℕ
is_summary (summary _) = 1
is_summary _ = 0

-- Each counter of a kind counts the rows of its kind, modulo `2 ^ 64`.
pub record IsTally (k : Kinds) (rows : List Row) : Type 0 where
  pub of_run : k.run ≡ total is_run rows % 2 ^ 64
  pub of_stage : k.stage ≡ total is_stage rows % 2 ^ 64
  pub of_telemetry : k.telemetry ≡ total is_telemetry rows % 2 ^ 64
  pub of_request : k.request ≡ total is_request rows % 2 ^ 64
  pub of_scrape_error : k.scrape_error ≡ total is_scrape_error rows % 2 ^ 64
  pub of_summary : k.summary ≡ total is_summary rows % 2 ^ 64

pub wrap_suc : (n : ℕ) → fetch_add (n % 2 ^ 64) ≡ suc n % 2 ^ 64
wrap_suc n = omega arith

module _ (w : Row → ℕ) (k : ℕ) (rows : List Row) (row : Row) (h : k ≡ total w rows % 2 ^ 64) where
  total-last : (rows : List Row) → total w (rows ++ row ∷ []) ≡ total w rows + w row
  total-last [] = omega arith
  total-last (r ∷ rows) = omega (arith, total-last rows)

  up : w row ≡ 1 → fetch_add k ≡ total w (rows ++ row ∷ []) % 2 ^ 64
  up e = omega (arith, e, h, total-last rows)

  same : w row ≡ 0 → k ≡ total w (rows ++ row ∷ []) % 2 ^ 64
  same e = omega (arith, e, h, total-last rows)

pub classify-IsTally :
    (row : Row) (k : Kinds) (rows : List Row)
    → IsTally k rows
    → IsTally (classify row k) (rows ++ row ∷ [])
unfolding classify
classify-IsTally (run t) k rows h = record {
  of_run = up is_run k.run rows (run t) (h.of_run) refl;
  of_stage = same is_stage k.stage rows (run t) (h.of_stage) refl;
  of_telemetry = same is_telemetry k.telemetry rows (run t) (h.of_telemetry) refl;
  of_request = same is_request k.request rows (run t) (h.of_request) refl;
  of_scrape_error = same is_scrape_error k.scrape_error rows (run t) (h.of_scrape_error) refl;
  of_summary = same is_summary k.summary rows (run t) (h.of_summary) refl;
}
classify-IsTally (stage t) k rows h = record {
  of_run = same is_run k.run rows (stage t) (h.of_run) refl;
  of_stage = up is_stage k.stage rows (stage t) (h.of_stage) refl;
  of_telemetry = same is_telemetry k.telemetry rows (stage t) (h.of_telemetry) refl;
  of_request = same is_request k.request rows (stage t) (h.of_request) refl;
  of_scrape_error = same is_scrape_error k.scrape_error rows (stage t) (h.of_scrape_error) refl;
  of_summary = same is_summary k.summary rows (stage t) (h.of_summary) refl;
}
classify-IsTally (telemetry t) k rows h = record {
  of_run = same is_run k.run rows (telemetry t) (h.of_run) refl;
  of_stage = same is_stage k.stage rows (telemetry t) (h.of_stage) refl;
  of_telemetry = up is_telemetry k.telemetry rows (telemetry t) (h.of_telemetry) refl;
  of_request = same is_request k.request rows (telemetry t) (h.of_request) refl;
  of_scrape_error = same is_scrape_error k.scrape_error rows (telemetry t) (h.of_scrape_error) refl;
  of_summary = same is_summary k.summary rows (telemetry t) (h.of_summary) refl;
}
classify-IsTally (request t) k rows h = record {
  of_run = same is_run k.run rows (request t) (h.of_run) refl;
  of_stage = same is_stage k.stage rows (request t) (h.of_stage) refl;
  of_telemetry = same is_telemetry k.telemetry rows (request t) (h.of_telemetry) refl;
  of_request = up is_request k.request rows (request t) (h.of_request) refl;
  of_scrape_error = same is_scrape_error k.scrape_error rows (request t) (h.of_scrape_error) refl;
  of_summary = same is_summary k.summary rows (request t) (h.of_summary) refl;
}
classify-IsTally (scrape_error t) k rows h = record {
  of_run = same is_run k.run rows (scrape_error t) (h.of_run) refl;
  of_stage = same is_stage k.stage rows (scrape_error t) (h.of_stage) refl;
  of_telemetry = same is_telemetry k.telemetry rows (scrape_error t) (h.of_telemetry) refl;
  of_request = same is_request k.request rows (scrape_error t) (h.of_request) refl;
  of_scrape_error =
      up is_scrape_error k.scrape_error rows (scrape_error t) (h.of_scrape_error) refl;
  of_summary = same is_summary k.summary rows (scrape_error t) (h.of_summary) refl;
}
classify-IsTally (summary t) k rows h = record {
  of_run = same is_run k.run rows (summary t) (h.of_run) refl;
  of_stage = same is_stage k.stage rows (summary t) (h.of_stage) refl;
  of_telemetry = same is_telemetry k.telemetry rows (summary t) (h.of_telemetry) refl;
  of_request = same is_request k.request rows (summary t) (h.of_request) refl;
  of_scrape_error = same is_scrape_error k.scrape_error rows (summary t) (h.of_scrape_error) refl;
  of_summary = up is_summary k.summary rows (summary t) (h.of_summary) refl;
}
