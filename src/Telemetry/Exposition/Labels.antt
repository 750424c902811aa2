-- ===== src/Telemetry/Exposition/Labels.antt =====
-- Labels that are written out are read back, src/telemetry/parser.rs.
use native.Mathlib.Numerals.{add-one}
use bench_cli.Base.{
  ℕ, zero, suc, ◌≤◌, ◌<◌, ◌≡◌, ◌≢◌, refl, ap, ◌∙◌, Bool, true, false, some, List, [], ◌∷◌, ◌++◌,
  append_assoc, append-nil, length, length-append, All, arith, ◌==◌, if◌then◌else◌,
}
use bench_cli.Text.{Text, is_empty, strip_prefix}
use bench_cli.Text.Scan.{span, is_alphanumeric}
use bench_cli.Text.Utf8.{encode_char}
use bench_cli.Text.Maps.{Map, insert}
use bench_cli.Telemetry.SampleText.{
  is_key_byte, is_separator, take_value, take_label, unescape, labels_loop, parse_labels,
  append_front,
}

-- The text format's escapes.
unfoldable pub escape_char : ℕ → Text
escape_char c =
    if c == b'\n'
    then b'\\' ∷ b'n' ∷ []
    else if c == b'\\'
    then b'\\' ∷ b'\\' ∷ []
    else if c == b'"'
    then b'\\' ∷ b'"' ∷ []
    else c ∷ []

unfoldable pub escape : Text → Text
escape [] = []
escape (c ∷ cs) = escape_char c ++ escape cs

abbrev pub IsAscii : Text → Type 0
IsAscii = All (λ c. c < 0x80)

-- One character of a value that is followed by more.
take_value-escape_char :
    (c : ℕ) (rest : Text)
    → c < 0x80
    → rest ≢ []
    → take_value (escape_char c ++ rest) ≡ append_front (c ∷ []) (take_value rest)
unfolding take_value escape_char unescape encode_char
take_value-escape_char c [] h ne = absurd (ne refl)
take_value-escape_char c (d ∷ rest) h ne = ground arith

append-cons-ne-nil : (xs : Text) (y : ℕ) (ys : Text) → (xs ++ y ∷ ys) ≢ []
append-cons-ne-nil [] y ys e = cc
append-cons-ne-nil (x ∷ xs) y ys e = cc

-- An escaped value is read back up to its closing quote.
pub take_value-escape :
    (v rest : Text) → IsAscii v → take_value (escape v ++ b'"' ∷ rest) ≡ some (v, rest)
unfolding escape
take_value-escape [] [] h = unfold take_value in refl
take_value-escape [] (r ∷ rest) h = unfold take_value in refl
take_value-escape (c ∷ cs) rest h = rw (append_assoc (escape_char c) (escape cs) (b'"' ∷ rest)) (
    take_value-escape_char c (escape cs ++ b'"' ∷ rest) h.0
      (append-cons-ne-nil (escape cs) b'"' rest)
    ∙ rw (take_value-escape cs rest h.1))

-- A label's key: letters, digits and underscores, and at least one.
pub record IsKey (k : Text) : Type 0 where
  pub filled : is_empty k ≡ false
  pub bytes : All (λ b. is_key_byte b ≡ true) k

pub span-append :
    (p : ℕ → Bool) (xs : Text) (y : ℕ) (ys : Text)
    → All (λ x. p x ≡ true) xs
    → p y ≡ false
    → span p (xs ++ y ∷ ys) ≡ (xs, y ∷ ys)
unfolding span
span-append p [] y ys h e = rw e
span-append p (x ∷ xs) y ys h e = rw (span-append p xs y ys h.1 e) (rw (h.0) refl)

-- A label, and what follows it.
unfoldable pub label : Text → Text → Text → Text
label k v rest = k ++ b'=' ∷ b'"' ∷ (escape v ++ b'"' ∷ rest)

equals_ends_key : is_key_byte b'=' ≡ false
unfolding is_alphanumeric
equals_ends_key = refl

span-label :
    (k v rest : Text)
    → IsKey k
    → span is_key_byte (label k v rest) ≡ (k, b'=' ∷ b'"' ∷ (escape v ++ b'"' ∷ rest))
unfolding label
span-label k v rest h =
    span-append is_key_byte k b'=' (b'"' ∷ (escape v ++ b'"' ∷ rest)) h.bytes equals_ends_key

take_label-label :
    (k v rest : Text) → IsKey k → IsAscii v → take_label (label k v rest) ≡ some (k, v, rest)
unfolding take_label strip_prefix
take_label-label k v rest h a =
    ground (arith, span-label k v rest h, h.filled, take_value-escape v rest a)

-- Labels with a comma in front of each, and without one in front of the first.
unfoldable pub print_more : List (Text × Text) → Text
print_more [] = []
print_more ((k, v) ∷ ls) = b',' ∷ label k v (print_more ls)

unfoldable pub print_labels : List (Text × Text) → Text
print_labels [] = []
print_labels ((k, v) ∷ ls) = label k v (print_more ls)

abbrev pub IsLabel : Text × Text → Type 0
IsLabel l = IsKey l.0 × IsAscii l.1

-- The entries put into the map in order, so that the last one of a key stays.
abbrev pub insert_all : List (Text × Text) → Map Text → Map Text
insert_all [] m = m
insert_all ((k, v) ∷ ls) m = insert_all ls (insert k v m)

-- The separators in front of a label are skipped, and the label stays.
skip-label : (k v rest : Text) → IsKey k → (span is_separator (label k v rest)).1 ≡ label k v rest
unfolding label span is_empty is_alphanumeric
skip-label [] v rest h = absurd (cc (h.filled))
skip-label (c ∷ k) v rest h = ground (arith, h.bytes.0)

label-filled : (k v rest : Text) → is_empty (label k v rest) ≡ false
unfolding label is_empty
label-filled [] v rest = refl
label-filled (c ∷ k) v rest = refl

skip_comma : (s : Text) → (span is_separator (b',' ∷ s)).1 ≡ (span is_separator s).1
unfolding span
skip_comma s = refl

-- A round of the loop on a label.
labels_loop-label :
    (fuel : ℕ) (m : Map Text) (k v rest raw : Text)
    → IsKey k
    → IsAscii v
    → (span is_separator raw).1 ≡ label k v rest
    → labels_loop (suc fuel) m raw ≡ labels_loop fuel (insert k v m) rest
unfolding labels_loop
labels_loop-label fuel m k v rest raw h a e =
    ground (arith, e, label-filled k v rest, take_label-label k v rest h a)

labels_loop-print_more :
    (ls : List (Text × Text)) (fuel : ℕ) (m : Map Text)
    → All IsLabel ls
    → length ls ≤ fuel
    → labels_loop (suc fuel) m (print_more ls) ≡ some (insert_all ls m)
unfolding print_more
labels_loop-print_more [] fuel m h enough = unfold labels_loop span is_empty in refl
labels_loop-print_more ((k, v) ∷ ls) zero m h enough = absurd (omega arith)
labels_loop-print_more ((k, v) ∷ ls) (suc fuel) m h enough =
    labels_loop-label (suc fuel) m k v (print_more ls) _ h.0.0 h.0.1
      (skip_comma _ ∙ skip-label k v (print_more ls) h.0.0)
    ∙ labels_loop-print_more ls fuel (insert k v m) h.1 (omega arith)

labels_loop_enough :
    (ls : List (Text × Text)) (fuel : ℕ) (m : Map Text)
    → All IsLabel ls
    → length ls < fuel
    → labels_loop fuel m (print_more ls) ≡ some (insert_all ls m)
labels_loop_enough ls zero m h enough = elim enough [ ]
labels_loop_enough ls (suc fuel) m h enough = labels_loop-print_more ls fuel m h (omega arith)

length-label : (k v rest : Text) → suc (length rest) ≤ length (label k v rest)
unfolding label
length-label k v rest = omega (
  arith,
  length-append k (b'=' ∷ b'"' ∷ (escape v ++ b'"' ∷ rest)),
  length-append (escape v) (b'"' ∷ rest),
)

length-print_more : (ls : List (Text × Text)) → length ls ≤ length (print_more ls)
unfolding print_more
length-print_more [] = omega arith
length-print_more ((k, v) ∷ ls) =
    omega (arith, length-print_more ls, length-label k v (print_more ls))

-- Labels that are written out with the escapes of the format, with keys of letters, digits and
-- underscores and ASCII values, are read back as the map of them, a later label of the same key in
-- the place of an earlier one.
pub parse_labels-print_labels :
    (ls : List (Text × Text))
    → All IsLabel ls
    → parse_labels (print_labels ls) ≡ some (insert_all ls [])
unfolding parse_labels print_labels
parse_labels-print_labels [] h = unfold labels_loop span is_empty in refl
parse_labels-print_labels ((k, v) ∷ ls) h =
    let raw = label k v (print_more ls) in
    rw add-one (
      labels_loop-label (length raw) [] k v (print_more ls) raw h.0.0 h.0.1
        (skip-label k v (print_more ls) h.0.0)
      ∙ labels_loop_enough ls (length raw) (insert k v []) h.1
          (omega (arith, length-label k v (print_more ls), length-print_more ls)))

-- A value of one character that is not ASCII, between its quotes, is read as the UTF-8 bytes of
-- that character, each taken for a character of its own, which is not the value that was written.
pub take_value-mojibake :
    (c : ℕ) (rest : Text)
    → 0x80 ≤ c
    → c < 0x110000
    → (take_value (c ∷ b'"' ∷ rest) ≡ some (encode_char c, rest)) × (encode_char c ≢ c ∷ [])
take_value-mojibake c [] h k = (
  unfold take_value in ground (arith, append-nil (encode_char c)),
  λ e. unfold encode_char in ground (arith, ap length e),
)
take_value-mojibake c (d ∷ rest) h k = (
  unfold take_value in ground (arith, append-nil (encode_char c)),
  λ e. unfold encode_char in ground (arith, ap length e),
)
