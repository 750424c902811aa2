-- ===== src/Tests/Pages.antt =====
-- Metrics pages that are written and read.
use bench_cli.Base.{◌≡◌, ◌≢◌, refl, List, [], ◌∷◌, some, All, arith}
use bench_cli.Text.{Text, codes, is_empty, is_whitespace}
use bench_cli.Text.Scan.{lines, is_alphanumeric}
use bench_cli.Text.Utf8.{encode_char}
use bench_cli.Telemetry.SampleText.{split_sample, parse_labels, take_value, is_metric_name_byte}
use bench_cli.Telemetry.Exposition.{parse_exposition}
use bench_cli.Telemetry.Exposition.Labels.{
  IsKey, IsLabel, insert_all, print_labels, parse_labels-print_labels, take_value-mojibake,
}
use bench_cli.Telemetry.Exposition.SampleLine.{
  IsMetricName, IsValue, sample_line, split_sample-sample_line,
}
use bench_cli.Telemetry.Exposition.Counting.{accounted, sample_lines, parse_exposition-accounted}
use bench_cli.Tests.Parameters.{every_name}

-- Two labels, the first with a brace, a quote and a backslash in its value.
abbrev labels : List (Text × Text)
labels = (codes "a", codes "}\"\\") ∷ (codes "b_1", codes "x") ∷ []

a-IsKey : IsKey (codes "a")
unfolding is_empty is_alphanumeric
a-IsKey = record { filled = refl; bytes = (refl, tt) }

b-IsKey : IsKey (codes "b_1")
unfolding is_empty is_alphanumeric
b-IsKey = record { filled = refl; bytes = (refl, (refl, (refl, tt))) }

labels-IsLabel : All IsLabel labels
labels-IsLabel =
    ((a-IsKey, (omega arith, (omega arith, (omega arith, tt)))), ((b-IsKey, (omega arith, tt)), tt))

name-IsMetricName : IsMetricName (codes "m:c")
unfolding is_empty is_metric_name_byte is_alphanumeric
name-IsMetricName = record { filled = refl; bytes = (refl, (refl, (refl, tt))) }

decimal-IsValue : IsValue (codes "1.5")
unfolding is_empty is_whitespace
decimal-IsValue = record { filled = refl; solid = (refl, (refl, (refl, tt))) }

parse_labels-print_labels_example : parse_labels (print_labels labels) ≡ some (insert_all labels [])
parse_labels-print_labels_example = parse_labels-print_labels labels labels-IsLabel

split_sample-sample_line_example :
    split_sample (sample_line (codes "m:c") labels (codes "1.5"))
    ≡ some (record { name = codes "m:c"; labels = some (print_labels labels); value = codes "1.5" })
split_sample-sample_line_example =
    split_sample-sample_line (codes "m:c") (codes "1.5") labels name-IsMetricName labels-IsLabel
      decimal-IsValue

take_value-mojibake_example :
    (take_value (0xE9 ∷ b'"' ∷ []) ≡ some (encode_char 0xE9, [])) × (encode_char 0xE9 ≢ 0xE9 ∷ [])
take_value-mojibake_example = take_value-mojibake 0xE9 [] (omega arith) (omega arith)

abbrev page : Text
page = codes "# TYPE m counter\nm{a=\"1\"} 2\n\nm 3 # {x\nbad\n# EOF\nm 4\n"

parse_exposition-accounted_example :
    accounted every_name (parse_exposition every_name page) ≡ sample_lines (lines page)
parse_exposition-accounted_example = parse_exposition-accounted every_name page
