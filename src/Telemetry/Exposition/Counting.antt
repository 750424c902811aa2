-- ===== src/Telemetry/Exposition/Counting.antt =====
-- Every line of a metrics page is accounted for.
use bench_cli.Base.{ℕ, suc, ◌+◌, ◌≡◌, List, [], ◌∷◌, length, length-append, arith, if◌then◌else◌}
use bench_cli.Text.{Text, codes, text_eq, is_empty, trim, starts_with}
use bench_cli.Text.Scan.{lines}
use bench_cli.Text.Maps.{Map}
use bench_cli.Telemetry.Exposition.{
  MetricType, Syntax, ParseResult, SampleOutcome, keep, skipped, malformed, note_outcome,
  parse_meta, parse_sample_line, lines_loop, parse_exposition,
}

-- The lines that hold a sample: not blank, no comment, and before the end marker.
abbrev pub sample_lines : List Text → ℕ
sample_lines [] = 0
sample_lines (raw_line ∷ rest) =
    let n = sample_lines rest in
    if is_empty (trim raw_line)
    then n
    else if text_eq (trim raw_line) (codes "# EOF")
    then 0
    else if starts_with (codes "#") (trim raw_line)
    then n
    else suc n

module _ (X : Syntax) where
  abbrev start : ParseResult X
  start = record { samples = []; skipped_lines = 0; malformed_lines = 0 }

  abbrev pub accounted : ParseResult X → ℕ
  accounted r = length r.samples + r.skipped_lines + r.malformed_lines

  note_outcome-accounted :
      (o : SampleOutcome X) (r : ParseResult X) → accounted (note_outcome X o r) ≡ suc (accounted r)
  unfolding note_outcome
  note_outcome-accounted (keep s) r = omega (arith, length-append r.samples (s ∷ []))
  note_outcome-accounted skipped r = omega arith
  note_outcome-accounted malformed r = omega arith

  lines_loop-accounted :
      (ls : List Text) (types : Map MetricType) (r : ParseResult X)
      → accounted (lines_loop X ls types r) ≡ accounted r + sample_lines ls
  unfolding lines_loop
  lines_loop-accounted [] types r = omega arith
  lines_loop-accounted (l ∷ ls) types r =
      let o : SampleOutcome X = parse_sample_line X (trim l) types in
      ground (
        arith,
        lines_loop-accounted ls types r,
        lines_loop-accounted ls (parse_meta (trim l) types) r,
        lines_loop-accounted ls types (note_outcome X o r),
        note_outcome-accounted o r,
      )

  -- Each line of the text that is neither blank nor a comment, up to a line `# EOF`, is one sample,
  -- one skipped line or one malformed line of the result.
  pub parse_exposition-accounted :
      (text : Text) → accounted (parse_exposition X text) ≡ sample_lines (lines text)
  unfolding parse_exposition
  parse_exposition-accounted text = omega (arith, lines_loop-accounted (lines text) [] start)
