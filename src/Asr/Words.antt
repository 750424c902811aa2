-- ===== src/Asr/Words.antt =====
-- The words of `english` of src/asr.rs: it is idempotent.
use bench_cli.Base.{
  ◌≡◌, refl, sym, ap, ap₂, ◌∙◌, subst, false, Bool-cases, inl, inr, Option-cases, none, some, List,
  [], ◌∷◌, ◌++◌, append_assoc, append-nil, All, All-append, arith,
}
use bench_cli.Text.{Text, codes, text_eq, is_empty, is_whitespace, join}
use bench_cli.Text.Scan.{words_from, split_whitespace}
use bench_cli.Text.Maps.{Map, get}
use bench_cli.Asr.{foldings, expand, expand_all, english}

abbrev Solid : Text → Type 0
Solid = All (λ c. is_whitespace c ≡ false)

abbrev IsWord : Text → Type 0
IsWord w = (is_empty w ≡ false) × Solid w

words_from-Solid :
    (w acc rest : Text) → Solid w → words_from acc (w ++ rest) ≡ words_from (acc ++ w) rest
unfolding words_from
words_from-Solid [] acc rest h = rw (append-nil acc) refl
words_from-Solid (c ∷ w) acc rest h = rw (h.0) (
    words_from-Solid w (acc ++ c ∷ []) rest h.1
    ∙ ap (λ a. words_from a rest) (append_assoc acc (c ∷ []) w))

split_whitespace-join :
    (ws : List Text) → All IsWord ws → split_whitespace (join (codes " ") ws) ≡ ws
unfolding join words_from is_empty is_whitespace
split_whitespace-join [] h = refl
split_whitespace-join (w ∷ []) h =
    ap (λ t. words_from [] t) (sym (append-nil w))
    ∙ words_from-Solid w [] [] (h.0.1)
    ∙ (rw (h.0.0) refl)
split_whitespace-join (w ∷ v ∷ ws) h =
    words_from-Solid w [] (b' ' ∷ join (codes " ") (v ∷ ws)) (h.0.1)
    ∙ rw (h.0.0) (ap (λ r. w ∷ r) (split_whitespace-join (v ∷ ws) h.1))

words_from-IsWord : (acc text : Text) → Solid acc → All IsWord (words_from acc text)
unfolding words_from is_empty
words_from-IsWord acc [] h = elim (Bool-cases (is_empty acc)) [
  | inl e ↦ rw e tt
  | inr e ↦ rw e ((e, h), tt)
]
words_from-IsWord acc (c ∷ cs) h =
    let later = words_from-IsWord [] cs tt in
    elim (Bool-cases (is_whitespace c)) [
      | inl e ↦
          rw e
            (elim (Bool-cases (is_empty acc)) [ inl n ↦ rw n later | inr n ↦ rw n ((n, h), later) ])
      | inr e ↦ rw e (
          words_from-IsWord (acc ++ c ∷ []) cs
            (All-append (λ d. is_whitespace d ≡ false) acc (c ∷ []) h (e, tt)))
    ]

-- What a folding puts in place of a word: words, which no folding changes.
abbrev IsFolded : Text × List Text → Type 0
IsFolded entry = All IsWord (entry.1) × (expand_all (entry.1) ≡ entry.1)

foldings-IsFolded : All IsFolded foldings
unfolding expand expand_all text_eq get is_whitespace is_empty
foldings-IsFolded = ground arith

get-IsFolded :
    (m : Map (List Text)) (k : Text) (ws : List Text)
    → All IsFolded m
    → get m k ≡ some ws
    → All IsWord ws × (expand_all ws ≡ ws)
unfolding get
get-IsFolded [] k ws h e = absurd (ground (arith, e))
get-IsFolded ((j, v) ∷ m) k ws h e = elim (Bool-cases (text_eq j k)) [
  | inl d ↦ subst (λ us. All IsWord us × (expand_all us ≡ us)) (ground (arith, d, e)) (h.0)
  | inr d ↦ get-IsFolded m k ws h.1 (ground (arith, d, e))
]

expand_other : (w : Text) → get foldings w ≡ none → expand w ++ [] ≡ w ∷ []
unfolding expand
expand_other w e = rw e refl

expand-IsFolded : (w : Text) → IsWord w → All IsWord (expand w) × (expand_all (expand w) ≡ expand w)
unfolding expand expand_all
expand-IsFolded w h = elim (Option-cases (get foldings w)) [
  | inl e ↦ rw e ((h, tt), expand_other w e)
  | inr (ws, e) ↦ rw e (get-IsFolded foldings w ws foldings-IsFolded e)
]

expand_all-append : (us vs : List Text) → expand_all (us ++ vs) ≡ expand_all us ++ expand_all vs
unfolding expand_all
expand_all-append [] vs = refl
expand_all-append (w ∷ us) vs =
    ap (λ r. expand w ++ r) (expand_all-append us vs)
    ∙ sym (append_assoc (expand w) (expand_all us) (expand_all vs))

expand_all-IsFolded :
    (ws : List Text)
    → All IsWord ws
    → All IsWord (expand_all ws) × (expand_all (expand_all ws) ≡ expand_all ws)
unfolding expand_all
expand_all-IsFolded [] h = (tt, refl)
expand_all-IsFolded (w ∷ ws) h =
    let (word, once) = expand-IsFolded w (h.0) in
    let (words, all_once) = expand_all-IsFolded ws (h.1) in
    (
      All-append IsWord (expand w) (expand_all ws) word words,
      expand_all-append (expand w) (expand_all ws) ∙ ap₂ (λ a b. a ++ b) once all_once,
    )

-- To expand the contractions and the numerals of an expanded text changes nothing.
pub english-english : (text : Text) → english (english text) ≡ english text
unfolding english
english-english text =
    let folded = expand_all-IsFolded (split_whitespace text) (words_from-IsWord [] text tt) in
    ap (λ ws. join (codes " ") (expand_all ws))
      (split_whitespace-join (expand_all (split_whitespace text)) (folded.0))
    ∙ ap (join (codes " ")) (folded.1)
