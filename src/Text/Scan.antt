-- ===== src/Text/Scan.antt =====
-- More of `str`: lines, words, and pieces found by a test.
use bench_cli.Base.{
  ℕ, Bool, ◌&&◌, ◌||◌, Option, none, some, List, [], ◌∷◌, ◌++◌, leb, ◌==◌, if◌then◌else◌, map_some,
}
use bench_cli.Text.{Text, is_empty, is_whitespace, starts_with, strip_prefix}
use mathlib.Core.List.{reverse}

-- `str::strip_suffix`
unfoldable pub strip_suffix : Text → Text → Option Text
unfolding strip_prefix
strip_suffix suffix s = map_some (strip_prefix (reverse suffix) (reverse s)) reverse

-- `str::ends_with`
unfoldable pub ends_with : Text → Text → Bool
unfolding starts_with
ends_with suffix s = starts_with (reverse suffix) (reverse s)

-- The characters as long as they pass the test, and the rest.
unfoldable pub span : (ℕ → Bool) → Text → Text × Text
span p [] = ([], [])
span p (c ∷ cs) = let r = span p cs in if p c then (c ∷ r.0, r.1) else ([], c ∷ cs)

-- `str::find` with a text pattern that is not empty: what stands before the first occurrence, and
-- what follows it.
unfoldable pub find_split : Text → Text → Option (Text × Text)
unfolding strip_prefix
find_split pattern [] = none
find_split pattern (c ∷ cs) =
    let later : Option (Text × Text) =
      map_some (find_split pattern cs) (λ (r : Text × Text). (c ∷ r.0, r.1)) in
    elim (strip_prefix pattern (c ∷ cs)) [ some rest ↦ some ([], rest) | none ↦ later ]

-- Is the line `"\r"`-ended? `str::lines` drops one carriage return in front of the newline.
unfoldable pub drop_cr : Text → Text
drop_cr [] = []
drop_cr (c ∷ []) = if c == b'\r' then [] else c ∷ []
drop_cr (c ∷ d ∷ cs) = c ∷ drop_cr (d ∷ cs)

-- `str::lines`, with the line read so far: a last line with no newline counts unless it is empty,
-- and keeps its carriage return.
unfoldable pub lines_from : Text → Text → List Text
unfolding drop_cr
lines_from line [] = if is_empty line then [] else line ∷ []
lines_from line (c ∷ cs) =
    let next = drop_cr line ∷ lines_from [] cs in
    let more = lines_from (line ++ c ∷ []) cs in if c == b'\n' then next else more

abbrev pub lines : Text → List Text
lines = lines_from []

-- `str::split_whitespace`, with the word read so far.
unfoldable pub words_from : Text → Text → List Text
words_from word [] = if is_empty word then [] else word ∷ []
words_from word (c ∷ cs) =
    let next = words_from [] cs in
    let more = words_from (word ++ c ∷ []) cs in
    if is_whitespace c then (if is_empty word then next else word ∷ next) else more

abbrev pub split_whitespace : Text → List Text
split_whitespace = words_from []

-- `u8::is_ascii_alphanumeric`
unfoldable pub is_alphanumeric : ℕ → Bool
is_alphanumeric c =
    (leb b'a' c && leb c b'z') || (leb b'A' c && leb c b'Z') || (leb b'0' c && leb c b'9')
