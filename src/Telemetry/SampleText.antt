-- ===== src/Telemetry/SampleText.antt =====
-- The text of a sample line, src/telemetry/parser.rs: the exemplar, the name, the labels and the
-- value. Texts are code points; the code steps through bytes, and tests them against ASCII only.
use bench_cli.Base.{
  ℕ, zero, suc, ◌+◌, Bool, true, false, not, ◌&&◌, ◌||◌, Option, none, some, [], ◌∷◌, ◌++◌, ◌==◌,
  if◌then◌else◌, map_some, first, length,
}
use bench_cli.Text.{Text, codes, is_empty, trim_start, strip_prefix, starts_with}
use bench_cli.Text.Scan.{span, find_split, split_whitespace, is_alphanumeric}
use bench_cli.Text.Maps.{Map, insert}
use bench_cli.Text.Utf8.{encode_char}

abbrev looks_like_exemplar : Text → Bool
looks_like_exemplar after =
    starts_with (codes "{") after || starts_with (codes "+") after || starts_with (codes "-") after

-- `strip_exemplar`
unfoldable pub strip_exemplar : Text → Text
strip_exemplar line = elim (find_split (codes " # ") line) [
  | none ↦ line
  | some (before, after) ↦ if looks_like_exemplar after then before else line
]

-- `is_metric_name_byte`
unfoldable pub is_metric_name_byte : ℕ → Bool
is_metric_name_byte b = is_alphanumeric b || b == b'_' || b == b':'

abbrev pub cons_front : ℕ → Option (Text × Text) → Option (Text × Text)
cons_front c none = none
cons_front c (some (inside, after)) = some (c ∷ inside, after)

-- `find_label_close`, after the opening brace: what is inside the braces, and what follows them.
unfoldable pub close_from : Bool → Bool → Text → Option (Text × Text)
close_from in_quote escape [] = none
close_from in_quote true (b ∷ bs) = cons_front b (close_from in_quote false bs)
close_from in_quote false (b ∷ bs) =
    let quoted : Option (Text × Text) = cons_front b (close_from (not in_quote) false bs) in
    let escaped : Option (Text × Text) = cons_front b (close_from in_quote true bs) in
    let plain : Option (Text × Text) = cons_front b (close_from in_quote false bs) in
    if b == b'\\' && in_quote
    then escaped
    else if b == b'"'
    then quoted
    else if b == b'}' && not in_quote
    then some ([], bs)
    else plain

-- The name, the raw labels and the value of a sample line.
pub record Parts : Type 0 where
  pub name : Text
  pub labels : Option Text
  pub value : Text

-- `first_token`, as the value of the parts.
abbrev pub with_value : Text → Option Text → Text → Option Parts
with_value name labels s =
    map_some (first (split_whitespace s)) (λ v. record { name = name; labels = labels; value = v })

-- The parts after the name; a `{` begins the labels.
unfoldable pub split_rest : Text → Text → Option Parts
split_rest name rest = elim (strip_prefix (codes "{") rest) [
  | none ↦ with_value name none rest
  | some inner ↦ elim (close_from false false inner) [
    | none ↦ none
    | some (labels, after) ↦ with_value name (some labels) (trim_start after)
  ]
]

-- `split_sample`
unfoldable pub split_sample : Text → Option Parts
split_sample line =
    let r = span is_metric_name_byte line in
    if is_empty r.0 then none else split_rest r.0 (trim_start r.1)

-- What a byte after a backslash stands for; each byte of another character becomes a character.
unfoldable pub unescape : ℕ → Text
unescape c = if c == b'n' then b'\n' ∷ [] else encode_char c

abbrev pub append_front : Text → Option (Text × Text) → Option (Text × Text)
append_front cs none = none
append_front cs (some (value, rest)) = some (cs ++ value, rest)

-- The value of a label, after its opening quote; the end of the text ends it too.
unfoldable pub take_value : Text → Option (Text × Text)
take_value [] = some ([], [])
take_value (b ∷ []) =
    if b == b'\\' then none else if b == b'"' then some ([], []) else some (encode_char b, [])
take_value (b ∷ c ∷ bs) =
    let escaped = append_front (unescape c) (take_value bs) in
    let plain = append_front (encode_char b) (take_value (c ∷ bs)) in
    if b == b'\\' then escaped else if b == b'"' then some ([], c ∷ bs) else plain

abbrev pub is_separator : ℕ → Bool
is_separator b = b == b',' || b == b' ' || b == b'\t'

abbrev pub is_key_byte : ℕ → Bool
is_key_byte b = is_alphanumeric b || b == b'_'

-- One label: its key, its value and what follows. `none` is malformed.
unfoldable pub take_label : Text → Option (Text × Text × Text)
take_label s =
    let r = span is_key_byte s in
    if is_empty r.0 then none else elim (strip_prefix (codes "=\"") r.1) [
      | none ↦ none
      | some quoted ↦ map_some (take_value quoted) (λ (v : Text × Text). (r.0, v.0, v.1))
    ]

-- The loop of `parse_labels`; each round takes a character at least.
unfoldable pub labels_loop : ℕ → Map Text → Text → Option (Map Text)
labels_loop zero map raw = some map
labels_loop (suc fuel) map raw =
    let s = (span is_separator raw).1 in
    let next : Option (Map Text) = elim (take_label s) [
      | none ↦ none
      | some (key, value, rest) ↦ labels_loop fuel (insert key value map) rest
    ] in
    if is_empty s then some map else next

-- `parse_labels`
unfoldable pub parse_labels : Text → Option (Map Text)
parse_labels raw = labels_loop (length raw + 1) [] raw
