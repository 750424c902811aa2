-- ===== src/Endpoints/Redact/Masked.antt =====
-- What the redaction leaves of a URL, src/endpoints.rs.
use bench_cli.Base.{
  false, ◌≡◌, refl, sym, ap, ◌∙◌, true, not, some, none, List, [], ◌∷◌, ◌++◌, map, length,
  append_assoc, arith, All, All-append, length-append, ◌==◌, ℕ, Bool, ltb, lt→ltb,
}
use bench_cli.Text.{Text, codes, is_empty, join, strip_prefix}
use bench_cli.Text.Scan.{span, find_split}
use bench_cli.Endpoints.Redact.{
  onto_first, split_on, redact_pair, redact_query, redact_userinfo, redact_url_string_level,
}
use bench_cli.Telemetry.Exposition.Labels.{span-append}

-- The character does not stand in the text.
abbrev pub Lacks : ℕ → Text → Type 0
Lacks c = All (λ x. not (x == c) ≡ true)

strip_prefix-append : (p s : Text) → strip_prefix p (p ++ s) ≡ some s
unfolding strip_prefix
strip_prefix-append [] s = refl
strip_prefix-append (c ∷ p) s = ground (arith, strip_prefix-append p s)

strip_prefix-other :
    (c : ℕ) (p : Text) (x : ℕ) (s : Text)
    → not (x == c) ≡ true
    → strip_prefix (c ∷ p) (x ∷ s) ≡ none
unfolding strip_prefix
strip_prefix-other c p x s h = ground arith

find_split-append :
    (c : ℕ) (p before after : Text)
    → Lacks c before
    → find_split (c ∷ p) (before ++ (c ∷ (p ++ after))) ≡ some (before, after)
unfolding find_split
find_split-append c p [] after h = rw (strip_prefix-append (c ∷ p) after, find_split) refl
find_split-append c p (x ∷ before) after h =
    rw
      (
        strip_prefix-other c p x (before ++ (c ∷ (p ++ after))) h.0,
        find_split-append c p before after h.1,
        find_split,
      )
      refl

-- The text is one piece, up to the separator.
split_on-piece :
    (sep : ℕ) (piece rest : Text)
    → Lacks sep piece
    → split_on sep (piece ++ sep ∷ rest) ≡ piece ∷ split_on sep rest
unfolding split_on onto_first
split_on-piece sep [] rest h = ground arith
split_on-piece sep (c ∷ piece) rest h = ground (arith, split_on-piece sep piece rest h.1, h.0)

split_on-last : (sep : ℕ) (piece : Text) → Lacks sep piece → split_on sep piece ≡ piece ∷ []
unfolding split_on onto_first
split_on-last sep [] h = refl
split_on-last sep (c ∷ piece) h = ground (arith, split_on-last sep piece h.1, h.0)

-- A key and a value that stand in a query as they are.
pub record IsPair (kv : Text × Text) : Type 0 where
  pub filled : is_empty kv.0 ≡ false
  pub key_plain : Lacks b'=' kv.0
  pub key_whole : Lacks b'&' kv.0
  pub value_whole : Lacks b'&' kv.1

abbrev pub print_pair : Text × Text → Text
print_pair kv = kv.0 ++ b'=' ∷ kv.1

abbrev pub mask_pair : Text × Text → Text
mask_pair kv = kv.0 ++ codes "=REDACTED"

redact_pair-print_pair : (kv : Text × Text) → IsPair kv → redact_pair (print_pair kv) ≡ mask_pair kv
unfolding redact_pair
redact_pair-print_pair kv h =
    rw (find_split-append b'=' [] kv.0 kv.1 h.key_plain, h.filled, redact_pair) refl

print_pair-whole : (kv : Text × Text) → IsPair kv → Lacks b'&' (print_pair kv)
print_pair-whole kv h =
    All-append (λ x. not (x == b'&') ≡ true) kv.0 (b'=' ∷ kv.1) h.key_whole (refl, h.value_whole)

redact-pairs :
    (kv : Text × Text) (more : List (Text × Text))
    → IsPair kv
    → All IsPair more
    → map redact_pair (split_on b'&' (join (codes "&") (map print_pair (kv ∷ more))))
      ≡ map mask_pair (kv ∷ more)
unfolding join
redact-pairs kv [] h hs =
    rw (split_on-last b'&' (print_pair kv) (print_pair-whole kv h), redact_pair-print_pair kv h)
      refl
redact-pairs kv (next ∷ more) h hs =
    let rest = join (codes "&") (map print_pair (next ∷ more)) in
    rw
      (
        split_on-piece b'&' (print_pair kv) rest (print_pair-whole kv h),
        redact_pair-print_pair kv h,
        redact-pairs next more hs.0 hs.1,
      )
      refl

-- The question mark belongs to the first key.
abbrev with_mark : Text × Text → Text × Text
with_mark kv = (b'?' ∷ kv.0, kv.1)

with_mark-IsPair : (kv : Text × Text) → IsPair kv → IsPair (with_mark kv)
unfolding is_empty
with_mark-IsPair kv h = record {
  filled = refl;
  key_plain = (refl, h.key_plain);
  key_whole = (refl, h.key_whole);
  value_whole = h.value_whole;
}

-- A query, its question mark included.
abbrev pub query : (Text × Text → Text) → List (Text × Text) → Text
query f kvs = b'?' ∷ join (codes "&") (map f kvs)

query-with_mark :
    (f : Text × Text → Text) (kv : Text × Text) (more : List (Text × Text))
    → f (with_mark kv) ≡ b'?' ∷ f kv
    → query f (kv ∷ more) ≡ join (codes "&") (map f (with_mark kv ∷ more))
unfolding join
query-with_mark f kv [] e = sym e
query-with_mark f kv (next ∷ more) e = rw e refl

redact_query-mark :
    (base tail : Text)
    → Lacks b'?' base
    → redact_query (base ++ b'?' ∷ tail)
      ≡ base ++ join (codes "&") (map redact_pair (split_on b'&' (b'?' ∷ tail)))
unfolding redact_query is_empty
redact_query-mark base tail h = rw (span-append (λ c. not (c == b'?')) base b'?' tail h refl) refl

redact_query-query :
    (base : Text) (kv : Text × Text) (more : List (Text × Text))
    → Lacks b'?' base
    → IsPair kv
    → All IsPair more
    → redact_query (base ++ query print_pair (kv ∷ more)) ≡ base ++ query mask_pair (kv ∷ more)
redact_query-query base kv more hb h hs =
    redact_query-mark base (join (codes "&") (map print_pair (kv ∷ more))) hb
    ∙ ap (λ text. base ++ join (codes "&") (map redact_pair (split_on b'&' text)))
        (query-with_mark print_pair kv more refl)
    ∙ ap (λ pieces. base ++ join (codes "&") pieces)
        (redact-pairs (with_mark kv) more (with_mark-IsPair kv h) hs)
    ∙ ap (λ text. base ++ text) (sym (query-with_mark mask_pair kv more refl))

span-prefix :
    (p : ℕ → Bool) (xs ys : Text)
    → All (λ x. p x ≡ true) xs
    → (span p (xs ++ ys)).0 ≡ xs ++ (span p ys).0
unfolding span
span-prefix p [] ys h = refl
span-prefix p (x ∷ xs) ys h = rw (h.0, span-prefix p xs ys h.1) refl

redact_userinfo-masked :
    (user rest : Text)
    → Lacks b'@' user
    → Lacks b'/' user
    → redact_userinfo (user ++ b'@' ∷ rest) ≡ codes "REDACTED@" ++ rest
unfolding redact_userinfo span is_empty
redact_userinfo-masked user rest h hs =
    let sep = (span (λ c. not (c == b'/')) rest).0 in
    let early : ltb (length user) (length (user ++ b'@' ∷ sep)) ≡ true =
      lt→ltb _ _ (omega (arith, length-append user (b'@' ∷ sep))) in
    rw
      (
        span-append (λ c. not (c == b'@')) user b'@' rest h refl,
        span-prefix (λ c. not (c == b'/')) user (b'@' ∷ rest) hs,
        early,
      )
      refl

redact-split :
    (url before after : Text)
    → find_split (codes "://") url ≡ some (before, after)
    → redact_url_string_level url ≡ redact_query (before ++ (codes "://" ++ redact_userinfo after))
unfolding redact_url_string_level
redact-split url before after h = rw (h, redact_url_string_level) refl

mark_whole : Lacks b'?' (codes "://REDACTED@")
mark_whole = (
  refl,
  (refl, (refl, (refl, (refl, (refl, (refl, (refl, (refl, (refl, (refl, (refl, tt))))))))))),
)

-- An address of a scheme with no `:` and no `?`, a userinfo with no `@` and no slash, a rest with no
-- `?`, and a query of one pair or more, of a key with no `=` and no `&`, not empty, and a value with
-- no `&`: what the redaction leaves is the address with neither the userinfo nor a value.
pub redact_url_string_level-masked :
    (scheme user rest : Text) (kv : Text × Text) (more : List (Text × Text))
    → Lacks b':' scheme
    → Lacks b'?' scheme
    → Lacks b'@' user
    → Lacks b'/' user
    → Lacks b'?' rest
    → IsPair kv
    → All IsPair more
    → redact_url_string_level
        (scheme ++ (codes "://" ++ (user ++ b'@' ∷ (rest ++ query print_pair (kv ∷ more)))))
      ≡ scheme ++ (codes "://REDACTED@" ++ (rest ++ query mask_pair (kv ∷ more)))
redact_url_string_level-masked scheme user rest kv more hc hq hu hs hr h hm =
    let tail = rest ++ query print_pair (kv ∷ more) in
    let marked = codes "://REDACTED@" ++ rest in
    let lacks = λ (x : ℕ). not (x == b'?') ≡ true in
    redact-split (scheme ++ (codes "://" ++ (user ++ b'@' ∷ tail))) scheme (user ++ b'@' ∷ tail)
      (find_split-append b':' (codes "//") scheme (user ++ b'@' ∷ tail) hc)
    ∙ ap (λ text. redact_query (scheme ++ (codes "://" ++ text)))
        (redact_userinfo-masked user tail hu hs)
    ∙ ap redact_query (sym (append_assoc scheme marked (query print_pair (kv ∷ more))))
    ∙ redact_query-query (scheme ++ marked) kv more
        (All-append lacks scheme marked hq
          (All-append lacks (codes "://REDACTED@") rest mark_whole hr))
        h hm
    ∙ append_assoc scheme marked (query mask_pair (kv ∷ more))
