-- ===== src/Telemetry/Exposition/SampleLine.antt =====
-- A sample line that is written out is split into its parts, src/telemetry/parser.rs.
use bench_cli.Base.{
  ℕ, ◌≡◌, refl, ap, ◌∙◌, true, false, Option, none, some, List, [], ◌∷◌, ◌++◌, append_assoc,
  append-nil, All, arith,
}
use bench_cli.Text.{Text, is_empty, strip_prefix, trim_start, is_whitespace}
use bench_cli.Text.Scan.{is_alphanumeric, words_from}
use bench_cli.Telemetry.SampleText.{
  with_value, is_key_byte, is_metric_name_byte, close_from, split_rest, split_sample,
}
use bench_cli.Telemetry.Exposition.Labels.{
  escape, escape_char, IsKey, IsLabel, label, print_more, print_labels, span-append,
}

-- `before` in front of what the scan for the closing brace keeps.
abbrev kept : Text → Option (Text × Text) → Option (Text × Text)
kept before none = none
kept before (some (inside, after)) = some (before ++ inside, after)

kept-append : (a b : Text) (o : Option (Text × Text)) → kept a (kept b o) ≡ kept (a ++ b) o
kept-append a b none = refl
kept-append a b (some (i, t)) = rw append_assoc

close-escape_char :
    (c : ℕ) (rest : Text)
    → close_from true false (escape_char c ++ rest)
      ≡ kept (escape_char c) (close_from true false rest)
unfolding close_from escape_char
close-escape_char c rest = ground arith

close-escape :
    (v rest : Text)
    → close_from true false (escape v ++ rest) ≡ kept (escape v) (close_from true false rest)
unfolding escape
close-escape [] rest = ground arith
close-escape (c ∷ cs) rest = rw (append_assoc (escape_char c) (escape cs) rest) (
    close-escape_char c (escape cs ++ rest)
    ∙ rw (close-escape cs rest) (kept-append (escape_char c) (escape cs) _))

-- The letters of a key open no quote and close no brace.
close-key :
    (k rest : Text)
    → All (λ b. is_key_byte b ≡ true) k
    → close_from false false (k ++ rest) ≡ kept k (close_from false false rest)
unfolding close_from is_alphanumeric
close-key [] rest h = ground arith
close-key (b ∷ k) rest h = ground (arith, h.0, close-key k rest h.1)

label-append : (k v a b : Text) → label k v a ++ b ≡ label k v (a ++ b)
unfolding label
label-append k v a b =
    rw (append_assoc k (b'=' ∷ b'"' ∷ (escape v ++ b'"' ∷ a)) b)
      (rw (append_assoc (escape v) (b'"' ∷ a) b) refl)

close-opened :
    (s : Text)
    → close_from false false (b'=' ∷ b'"' ∷ s) ≡ kept (b'=' ∷ b'"' ∷ []) (close_from true false s)
unfolding close_from
close-opened s = ground arith

close-shut :
    (s : Text) → close_from true false (b'"' ∷ s) ≡ kept (b'"' ∷ []) (close_from false false s)
unfolding close_from
close-shut s = ground arith

close-comma :
    (s : Text) → close_from false false (b',' ∷ s) ≡ kept (b',' ∷ []) (close_from false false s)
unfolding close_from
close-comma s = ground arith

-- The quotes of a value shut out what is inside them.
close-value :
    (v rest : Text)
    → close_from false false (b'=' ∷ b'"' ∷ (escape v ++ b'"' ∷ rest))
      ≡ kept (b'=' ∷ b'"' ∷ (escape v ++ b'"' ∷ [])) (close_from false false rest)
close-value v rest =
    close-opened _
    ∙ ap (kept (b'=' ∷ b'"' ∷ []))
        (close-escape v _ ∙ ap (kept (escape v)) (close-shut rest) ∙ kept-append (escape v) _ _)
    ∙ kept-append (b'=' ∷ b'"' ∷ []) _ _

close-label :
    (k v rest : Text)
    → IsKey k
    → close_from false false (label k v rest) ≡ kept (label k v []) (close_from false false rest)
unfolding label
close-label k v rest h = close-key k _ h.bytes ∙ rw (close-value v rest) (kept-append k _ _)

close-print_more :
    (ls : List (Text × Text)) (after : Text)
    → All IsLabel ls
    → close_from false false (print_more ls ++ b'}' ∷ after) ≡ some (print_more ls, after)
unfolding print_more
close-print_more [] after h = unfold close_from in refl
close-print_more ((k, v) ∷ ls) after h = rw (label-append k v (print_more ls) (b'}' ∷ after)) (
    close-comma _
    ∙ rw (close-label k v (print_more ls ++ b'}' ∷ after) h.0.0)
        (rw (close-print_more ls after h.1) (rw (label-append k v [] (print_more ls)) refl)))

close-print_labels :
    (ls : List (Text × Text)) (after : Text)
    → All IsLabel ls
    → close_from false false (print_labels ls ++ b'}' ∷ after) ≡ some (print_labels ls, after)
unfolding print_labels
close-print_labels [] after h = unfold close_from in refl
close-print_labels ((k, v) ∷ ls) after h = rw (label-append k v (print_more ls) (b'}' ∷ after)) (
    rw (close-label k v (print_more ls ++ b'}' ∷ after) h.0.0)
      (rw (close-print_more ls after h.1) (rw (label-append k v [] (print_more ls)) refl)))

-- A metric's name: letters, digits, underscores and colons, and at least one.
pub record IsMetricName (n : Text) : Type 0 where
  pub filled : is_empty n ≡ false
  pub bytes : All (λ b. is_metric_name_byte b ≡ true) n

-- A value: at least one character, and no whitespace.
pub record IsValue (x : Text) : Type 0 where
  pub filled : is_empty x ≡ false
  pub solid : All (λ c. is_whitespace c ≡ false) x

-- A sample line with labels.
abbrev pub sample_line : Text → List (Text × Text) → Text → Text
sample_line name ls value = name ++ b'{' ∷ (print_labels ls ++ b'}' ∷ b' ' ∷ value)

words_from-solid :
    (w x : Text)
    → All (λ c. is_whitespace c ≡ false) x
    → is_empty (w ++ x) ≡ false
    → words_from w x ≡ (w ++ x) ∷ []
unfolding words_from
words_from-solid w [] h e = ground (arith, append-nil w, e)
words_from-solid w (c ∷ x) h e = rw (h.0) (
    words_from-solid (w ++ c ∷ []) x h.1 (rw (append_assoc w (c ∷ []) x) e)
    ∙ rw (append_assoc w (c ∷ []) x) refl)

trim_start-value : (x : Text) → IsValue x → trim_start (b' ' ∷ x) ≡ x
trim_start-value [] h = absurd (unfold is_empty in cc (h.filled))
trim_start-value (c ∷ x) h = unfold trim_start in rw (h.solid.0) refl

with_value-value :
    (name value : Text) (labels : Option Text)
    → IsValue value
    → with_value name labels (trim_start (b' ' ∷ value))
      ≡ some (record { name = name; labels = labels; value = value })
with_value-value name value labels h =
    rw (trim_start-value value h, words_from-solid [] value h.solid h.filled) refl

brace_ends_name : is_metric_name_byte b'{' ≡ false
unfolding is_metric_name_byte is_alphanumeric
brace_ends_name = refl

split_rest-labels :
    (name value : Text) (ls : List (Text × Text))
    → All IsLabel ls
    → IsValue value
    → split_rest name (trim_start (b'{' ∷ (print_labels ls ++ b'}' ∷ b' ' ∷ value)))
      ≡ some (record { name = name; labels = some (print_labels ls); value = value })
unfolding split_rest trim_start strip_prefix
split_rest-labels name value ls hl hv =
    rw (close-print_labels ls (b' ' ∷ value) hl, split_rest) (with_value-value name value _ hv)

-- A sample line that is written out, of a metric name, labels with keys of letters, digits and
-- underscores and with ASCII values escaped as the format says, and a value with at least one
-- character and no white space, is split into the name, the text of the labels and the value: no
-- quote, brace or backslash in a label's value ends the labels early.
pub split_sample-sample_line :
    (name value : Text) (ls : List (Text × Text))
    → IsMetricName name
    → All IsLabel ls
    → IsValue value
    → split_sample (sample_line name ls value)
      ≡ some (record { name = name; labels = some (print_labels ls); value = value })
unfolding split_sample
split_sample-sample_line name value ls hn hl hv =
    rw (span-append is_metric_name_byte name b'{' _ hn.bytes brace_ends_name, hn.filled)
      (split_rest-labels name value ls hl hv)
