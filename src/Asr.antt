-- ===== src/Asr.antt =====
-- The accuracy of a transcript, src/asr.rs: normalization, the edit distance and the error rates.
-- The Unicode tables behind `str::to_lowercase` and `char::is_alphanumeric` are a parameter.
pub mod Distance
pub mod Words
use bench_cli.Base.{
  ℕ, zero, suc, ◌+◌, min, Bool, true, false, ◌||◌, Option, none, some, List, [], ◌∷◌, ◌++◌, map,
  flatten, length, get_elem?, ◌==◌, if◌then◌else◌, unwrap_or, map_some, Float, ◌&&◌,
}
use bench_cli.Text.{Text, codes, text_eq, is_empty, join}
use bench_cli.Text.Scan.{split_whitespace}
use bench_cli.Text.Maps.{Map, get}

-- `Normalizer`
pub data Normalizer : Type 0 where
  whisper_english whisper_basic raw : Normalizer

pub record Unicode : Type 0 where
  pub to_lowercase : Text → Text
  pub is_alphanumeric : ℕ → Bool

-- `replace(['’', '`'], "'")`
unfoldable pub straight_quote : ℕ → ℕ
straight_quote c = if c == 0x2019 || c == 0x60 then 0x27 else c

abbrev pub opens : ℕ → Bool
opens c = c == b'[' || c == b'(' || c == b'<'

abbrev pub closes : ℕ → Bool
closes c = c == b']' || c == b')' || c == b'>'

module _ (U : Unicode) where
  -- The loop of `basic`.
  unfoldable pub fold_from : Bool → Text → Text
  fold_from in_brackets [] = []
  fold_from in_brackets (c ∷ cs) =
      let opened = fold_from true cs in
      let closed = b' ' ∷ fold_from false cs in
      let hidden = fold_from true cs in
      let kept = c ∷ fold_from false cs in
      let blank = b' ' ∷ fold_from false cs in
      if opens c
      then opened
      else if closes c
      then closed
      else if in_brackets
      then hidden
      else if U.is_alphanumeric c || c == 0x27
      then kept
      else blank

  -- `basic`
  unfoldable pub basic : Text → Text
  unfolding straight_quote fold_from
  basic text =
      join (codes " ")
        (split_whitespace (fold_from false (map straight_quote (U.to_lowercase text))))

abbrev not_after : Text → List Text
not_after word = word ∷ codes "not" ∷ []

abbrev is_after : Text → List Text
is_after word = word ∷ codes "is" ∷ []

-- The words that `english` replaces.
abbrev pub foldings : Map (List Text)
foldings =
    (codes "can't", not_after (codes "can"))
    ∷ (codes "won't", not_after (codes "will"))
    ∷ (codes "i'm", codes "i" ∷ codes "am" ∷ [])
    ∷ (codes "it's", is_after (codes "it"))
    ∷ (codes "that's", is_after (codes "that"))
    ∷ (codes "there's", is_after (codes "there"))
    ∷ (codes "don't", not_after (codes "do"))
    ∷ (codes "doesn't", not_after (codes "does"))
    ∷ (codes "didn't", not_after (codes "did"))
    ∷ (codes "isn't", not_after (codes "is"))
    ∷ (codes "aren't", not_after (codes "are"))
    ∷ (codes "wasn't", not_after (codes "was"))
    ∷ (codes "weren't", not_after (codes "were"))
    ∷ (codes "zero", codes "0" ∷ [])
    ∷ (codes "one", codes "1" ∷ [])
    ∷ (codes "two", codes "2" ∷ [])
    ∷ (codes "three", codes "3" ∷ [])
    ∷ (codes "four", codes "4" ∷ [])
    ∷ (codes "five", codes "5" ∷ [])
    ∷ (codes "six", codes "6" ∷ [])
    ∷ (codes "seven", codes "7" ∷ [])
    ∷ (codes "eight", codes "8" ∷ [])
    ∷ (codes "nine", codes "9" ∷ [])
    ∷ (codes "ten", codes "10" ∷ [])
    ∷ []

-- The `match` on a word.
unfoldable pub expand : Text → List Text
expand word = unwrap_or (get foldings word) (word ∷ [])

unfoldable pub expand_all : List Text → List Text
expand_all [] = []
expand_all (w ∷ ws) = expand w ++ expand_all ws

-- `english`
unfoldable pub english : Text → Text
unfolding expand_all
english text = join (codes " ") (expand_all (split_whitespace text))

-- `normalize`
unfoldable pub normalize : Unicode → Text → Normalizer → Text
unfolding basic english
normalize U text raw = text
normalize U text whisper_basic = basic U text
normalize U text whisper_english = english (basic U text)

module _ {A : Type 0} (same : A → A → Bool) where
  abbrev pub cost : A → A → ℕ
  cost x y = if same x y then 0 else 1

  -- The inner loop: `left` is the cell just written, `previous` the row above from the cell above
  -- it on. A row has one cell more than `actual` has items, so no index is out of bounds.
  unfoldable pub fill : A → ℕ → List ℕ → List A → List ℕ
  fill x left (diagonal ∷ above ∷ previous) (y ∷ actual) =
      let cell = min (min (above + 1) (left + 1)) (diagonal + cost x y) in
      cell ∷ fill x cell (above ∷ previous) actual
  fill x left _ _ = []

  -- The outer loop, from the item `i` of `expected` on.
  unfoldable pub rows : ℕ → List ℕ → List A → List A → List ℕ
  unfolding fill
  rows i previous [] actual = previous
  rows i previous (x ∷ expected) actual =
      rows (suc i) ((i + 1) ∷ fill x (i + 1) previous actual) expected actual

  -- `(0..=actual.len()).collect()`
  unfoldable pub count_up : ℕ → List A → List ℕ
  count_up i [] = i ∷ []
  count_up i (y ∷ actual) = i ∷ count_up (suc i) actual

  -- `edit_distance`
  unfoldable pub edit_distance : List A → List A → Option ℕ
  unfolding rows count_up
  edit_distance expected actual =
      get_elem? (rows 0 (count_up 0 actual) expected actual) (length actual)

module _ (F : Float) where
  -- The two error rates, on the words or the characters; `none` within is a panic, which the
  -- distance does not do.
  unfoldable pub error_rate : {A : Type 0} → (A → A → Bool) → List A → List A → Option F.F64
  unfolding edit_distance
  error_rate same expected actual =
      let rate =
        map_some (edit_distance same expected actual)
          (λ d. F.div (F.of_nat d) (F.of_nat (length expected))) in
      let empty = if is_empty actual then some (F.of_nat 0) else none in
      if is_empty expected then empty else rate

  -- `word_error_rate`
  unfoldable pub word_error_rate : Unicode → Text → Text → Normalizer → Option F.F64
  unfolding normalize error_rate
  word_error_rate U reference hypothesis normalizer =
      error_rate text_eq (split_whitespace (normalize U reference normalizer))
        (split_whitespace (normalize U hypothesis normalizer))

  -- `character_error_rate`
  unfoldable pub character_error_rate : Unicode → Text → Text → Normalizer → Option F.F64
  unfolding normalize error_rate
  character_error_rate U reference hypothesis normalizer =
      error_rate ◌==◌ (normalize U reference normalizer) (normalize U hypothesis normalizer)

  -- `transcript_error_rates`
  unfoldable pub transcript_error_rates : Unicode → Text → Text → Normalizer → F.F64 × F.F64
  unfolding word_error_rate character_error_rate
  transcript_error_rates U reference hypothesis normalizer = (
    unwrap_or (word_error_rate U reference hypothesis normalizer) (F.of_nat 1),
    unwrap_or (character_error_rate U reference hypothesis normalizer) (F.of_nat 1),
  )

  abbrev is_usable : F.F64 → Bool
  is_usable x = F.is_finite x && F.lt (F.of_nat 0) x

  -- `rtfx`
  unfoldable pub rtfx : F.F64 → F.F64 → Option F.F64
  rtfx audio_seconds client_seconds =
      if is_usable audio_seconds && is_usable client_seconds
      then some (F.div audio_seconds client_seconds)
      else none
