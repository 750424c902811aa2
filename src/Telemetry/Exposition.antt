-- ===== src/Telemetry/Exposition.antt =====
-- The Prometheus text parser, src/telemetry/parser.rs. Texts are code points; the code steps
-- through bytes, and tests them against ASCII only. `regex::RegexSet` and the float syntax of
-- `str::parse::<f64>` are parameters. A `BTreeMap` is an association list with one entry per key.
pub mod Labels
pub mod SampleLine
pub mod Counting
use bench_cli.Base.{
  ℕ, ◌+◌, Bool, not, ◌||◌, Option, none, some, List, [], ◌∷◌, ◌++◌, ◌==◌, or_else, if◌then◌else◌,
}
use bench_cli.Text.{
  Text, codes, text_eq, is_empty, trim, trim_start, strip_prefix, starts_with, to_ascii_lowercase,
}
use bench_cli.Text.Scan.{strip_suffix, ends_with, lines, split_whitespace}
use bench_cli.Text.Maps.{Map, get, insert}
use bench_cli.Telemetry.SampleText.{strip_exemplar, Parts, split_sample, parse_labels}

-- `MetricType`, src/telemetry/row.rs
pub data MetricType : Type 0 where
  counter gauge histogram_bucket summary unknown : MetricType

-- `map_type`
unfoldable pub map_type : Text → MetricType
map_type ty =
    let name = to_ascii_lowercase ty in
    if text_eq name (codes "counter")
    then counter
    else if text_eq name (codes "gauge")
    then gauge
    else if text_eq name (codes "histogram")
    then histogram_bucket
    else if text_eq name (codes "summary")
    then summary
    else unknown

-- `trim_start_matches('#')`
unfoldable pub drop_hashes : Text → Text
drop_hashes [] = []
drop_hashes (c ∷ cs) = let rest = drop_hashes cs in if c == b'#' then rest else c ∷ cs

-- The words after `TYPE `.
unfoldable pub note_type : List Text → Map MetricType → Map MetricType
note_type (name ∷ ty ∷ _) types = insert name (map_type ty) types
note_type _ types = types

-- `parse_meta`
unfoldable pub parse_meta : Text → Map MetricType → Map MetricType
parse_meta line types = elim (strip_prefix (codes "TYPE ") (trim_start (drop_hashes line))) [
  | none ↦ types
  | some after ↦ note_type (split_whitespace after) types
]

-- The type declared for the base name, if the name has this suffix.
abbrev base_type : Map MetricType → Text → Option Text → Option MetricType
base_type types name none = none
base_type types name (some base) = get types base

-- `infer_type` with no declared type of the name itself, from the types of its base names.
unfoldable pub infer_suffix : Option MetricType → Option MetricType → Text → MetricType
infer_suffix (some histogram_bucket) _ name = histogram_bucket
infer_suffix _ (some histogram_bucket) name = histogram_bucket
infer_suffix _ (some summary) name = summary
infer_suffix _ _ name =
    if ends_with (codes "_total") name
    then counter
    else if ends_with (codes "_bucket") name
    then histogram_bucket
    else unknown

-- `infer_type`
unfoldable pub infer_type : Text → Map MetricType → MetricType
infer_type name types =
    let bucket = strip_suffix (codes "_bucket") name in
    let part = or_else (strip_suffix (codes "_sum") name) (strip_suffix (codes "_count") name) in
    elim (get types name) [
      | some ty ↦ ty
      | none ↦ infer_suffix (base_type types name bucket) (base_type types name part) name
    ]

-- The parameters: the include set and the float syntax.
pub record Syntax : Type 1 where
  pub F64 : Type 0
  pub nan : F64
  pub infinity : F64
  pub neg_infinity : F64
  pub parse_f64 : Text → Option F64
  pub include_is_empty : Bool
  pub include_is_match : Text → Bool

module _ (X : Syntax) where
  open X use {F64, nan, infinity, neg_infinity, parse_f64, include_is_empty, include_is_match}

  -- `parse_float`
  unfoldable pub parse_float : Text → Option F64
  parse_float s =
      if text_eq s (codes "NaN") || text_eq s (codes "+NaN") || text_eq s (codes "-NaN")
      then some nan
      else if text_eq s (codes "+Inf") || text_eq s (codes "Inf")
      then some infinity
      else if text_eq s (codes "-Inf")
      then some neg_infinity
      else parse_f64 s

  pub record ParsedSample : Type 0 where
    pub metric : Text
    pub labels : Map Text
    pub value : F64
    pub mtype : MetricType

  pub data SampleOutcome : Type 0 where
    keep : ParsedSample → SampleOutcome
    skipped malformed : SampleOutcome

  -- The labels of the parts; none written is the empty map.
  unfoldable pub labels_of : Option Text → Option (Map Text)
  labels_of none = some []
  labels_of (some raw) = parse_labels raw

  -- A sample of a name that is included.
  unfoldable pub build_sample : Parts → Map MetricType → SampleOutcome
  build_sample parts types = elim (parse_float parts.value) [
    | none ↦ malformed
    | some value ↦ elim (labels_of parts.labels) [
      | none ↦ malformed
      | some labels ↦ keep (record {
        metric = parts.name;
        labels = labels;
        value = value;
        mtype = infer_type parts.name types;
      })
    ]
  ]

  -- `parse_sample_line`
  unfoldable pub parse_sample_line : Text → Map MetricType → SampleOutcome
  parse_sample_line line types = elim (split_sample (strip_exemplar line)) [
    | none ↦ malformed
    | some parts ↦
        if include_is_empty || not (include_is_match parts.name)
        then skipped
        else build_sample parts types
  ]

  pub record ParseResult : Type 0 where
    pub samples : List ParsedSample
    pub skipped_lines : ℕ
    pub malformed_lines : ℕ

  -- The `match` on the outcome; the counters are `u64`s that no text is long enough to overflow.
  unfoldable pub note_outcome : SampleOutcome → ParseResult → ParseResult
  note_outcome (keep sample) r = record r { samples = r.samples ++ sample ∷ [] }
  note_outcome skipped r = record r { skipped_lines = r.skipped_lines + 1 }
  note_outcome malformed r = record r { malformed_lines = r.malformed_lines + 1 }

  -- The loop of `parse_exposition`.
  unfoldable pub lines_loop : List Text → Map MetricType → ParseResult → ParseResult
  lines_loop [] types result = result
  lines_loop (raw_line ∷ rest) types result =
      let line = trim raw_line in
      let blank = lines_loop rest types result in
      let meta = lines_loop rest (parse_meta line types) result in
      let sample = lines_loop rest types (note_outcome (parse_sample_line line types) result) in
      if is_empty line
      then blank
      else if text_eq line (codes "# EOF")
      then result
      else if starts_with (codes "#") line
      then meta
      else sample

  -- `parse_exposition`
  unfoldable pub parse_exposition : Text → ParseResult
  parse_exposition text =
      lines_loop (lines text) [] (record { samples = []; skipped_lines = 0; malformed_lines = 0 })
