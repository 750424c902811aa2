-- ===== src/Chat/Usage.antt =====
-- src/usage.rs, and `usage_presence` of src/chat_stream.rs.
use bench_cli.Base.{
  ℕ, zero, suc, ◌-◌, ◌≡◌, ◌↔◌, ◌+◌, refl, Bool, true, false, ◌&&◌, Option, none, some, List, [],
  ◌∷◌, arith, leb, if◌then◌else◌, and_then, map_some, or_else, is_some, filter_some, Float,
}
use bench_cli.Text.{Text, codes}
use bench_cli.Json.{Json}

-- `REASONING_TOKEN_POINTERS`
abbrev pub reasoning_token_pointers : List Text
reasoning_token_pointers =
    codes "/completion_tokens_details/reasoning_tokens"
    ∷ codes "/output_tokens_details/reasoning_tokens"
    ∷ codes "/reasoning_tokens"
    ∷ []

-- The loop of `reasoning_tokens` over what each location reports, and its last line.
unfoldable pub first_count : Bool → List (Option ℕ) → Option ℕ
first_count reported_zero [] = if reported_zero then some 0 else none
first_count reported_zero (none ∷ rest) = first_count reported_zero rest
first_count reported_zero (some zero ∷ rest) = first_count true rest
first_count reported_zero (some (suc n) ∷ rest) = some (suc n)

-- `visible_completion_tokens`, with `checked_sub`.
unfoldable pub visible_completion_tokens : ℕ → Option ℕ → Option ℕ
visible_completion_tokens completion none = none
visible_completion_tokens completion (some r) =
    if leb r completion then some (completion - r) else none

module _ (F : Float) (J : Json F.F64) where
  open F use {F64, of_nat, to_u64, le, eq, fract, is_finite}
  open J use {Value, get, pointer, as_u64, as_f64}

  unfoldable pub non_negative_count : Value → Option ℕ
  non_negative_count value = or_else (as_u64 value) (
      map_some
        (filter_some (as_f64 value)
          (λ v. is_finite v && le (of_nat 0) v && eq (fract v) (of_nat 0)))
        to_u64)

  -- What each location of a usage object reports.
  abbrev pub reports : Value → List Text → List (Option ℕ)
  reports usage [] = []
  reports usage (p ∷ ps) = and_then (pointer usage p) non_negative_count ∷ reports usage ps

  unfoldable pub reasoning_tokens : Value → Option ℕ
  reasoning_tokens usage = first_count false (reports usage reasoning_token_pointers)

module _ {F64 : Type 0} (J : Json F64) where
  open J use {Value, get, as_u64}

  unfoldable pub usage_presence : Value → Bool × Bool
  usage_presence usage = (
    is_some (and_then (get usage (codes "prompt_tokens")) as_u64),
    is_some (and_then (get usage (codes "completion_tokens")) as_u64),
  )

-- The first count that is reported and is not zero.
abbrev pub first_positive : List (Option ℕ) → Option ℕ
first_positive [] = none
first_positive (some (suc n) ∷ rest) = some (suc n)
first_positive (_ ∷ rest) = first_positive rest

abbrev pub any_reported : List (Option ℕ) → Bool
any_reported [] = false
any_reported (some n ∷ rest) = true
any_reported (none ∷ rest) = any_reported rest

abbrev pub zero_if : Bool → Option ℕ
zero_if b = if b then some 0 else none

first_count-true :
    (rs : List (Option ℕ)) → first_count true rs ≡ or_else (first_positive rs) (some 0)
unfolding first_count
first_count-true [] = refl
first_count-true (none ∷ rs) = first_count-true rs
first_count-true (some zero ∷ rs) = first_count-true rs
first_count-true (some (suc n) ∷ rs) = refl

first_count_lem :
    (rs : List (Option ℕ))
    → first_count false rs ≡ or_else (first_positive rs) (zero_if (any_reported rs))
unfolding first_count
first_count_lem [] = refl
first_count_lem (none ∷ rs) = first_count_lem rs
first_count_lem (some zero ∷ rs) = first_count-true rs
first_count_lem (some (suc n) ∷ rs) = refl

-- The reasoning count of a usage object is the first count above zero in the order of the three
-- locations; it is zero if some location reports and all that report say zero, and none if no
-- location reports.
pub reasoning_tokens_lem :
    (F : Float) (J : Json F.F64) (usage : J.Value)
    → reasoning_tokens F J usage
      ≡ or_else
          (first_positive (reports F J usage reasoning_token_pointers))
          (zero_if (any_reported (reports F J usage reasoning_token_pointers)))
unfolding reasoning_tokens
reasoning_tokens_lem F J usage = first_count_lem (reports F J usage reasoning_token_pointers)

-- Visible tokens are reported exactly when the reasoning count is, and is at most the completion
-- count; the two then add up to it.
pub visible_completion_tokens_iff :
    (completion : ℕ) (reasoning : Option ℕ) (visible : ℕ)
    → (visible_completion_tokens completion reasoning ≡ some visible)
      ↔ ((r : ℕ) × (reasoning ≡ some r) × (visible + r ≡ completion))
unfolding visible_completion_tokens
visible_completion_tokens_iff completion none visible = ((λ h. cc), (λ h. cc (h.1)))
visible_completion_tokens_iff completion (some r) visible =
    ((λ h. (r, refl, ground arith)), (λ h. ground (arith, h.1, h.2)))
