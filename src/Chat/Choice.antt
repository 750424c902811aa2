-- ===== src/Chat/Choice.antt =====
-- The choice helpers of src/sse.rs and `measured_choices` of src/chat_stream.rs.
use bench_cli.Base.{
  ℕ, ◌+◌, Bool, true, false, not, ◌||◌, Option, none, some, List, [], ◌∷◌, ◌==◌, if◌then◌else◌,
  and_then, or_else, is_some, is_some_and, any, find, first, filter_some,
}
use bench_cli.Text.{Text, codes, is_empty}
use bench_cli.Json.{Json}

-- `is_some_and(|s| !s.is_empty())`
abbrev nonempty : Option Text → Bool
nonempty o = is_some_and o (λ s. not (is_empty s))

module _ {F64 : Type 0} (J : Json F64) where
  open J use {Value, get, as_str, as_u64, as_array, is_object}

  unfoldable pub choice_output_text : Value → Option Text
  choice_output_text choice =
      or_else
        (and_then (and_then (get choice (codes "delta")) (λ d. get d (codes "content"))) as_str)
        (and_then (get choice (codes "text")) as_str)

  -- The arguments of a `function` or `function_call` member are a text that is not empty.
  abbrev has_arguments : Option Value → Bool
  has_arguments f = nonempty (and_then (and_then f (λ v. get v (codes "arguments"))) as_str)

  unfoldable pub choice_has_output_token : Value → Bool
  choice_has_output_token choice =
      if nonempty (choice_output_text choice) then true else elim (get choice (codes "delta")) [
        | none ↦ false
        | some delta ↦
            has_arguments (get delta (codes "function_call"))
            || is_some_and (and_then (get delta (codes "tool_calls")) as_array)
                (any (λ tc. has_arguments (get tc (codes "function"))))
      ]

  unfoldable pub choice_has_reasoning_token : Value → Bool
  choice_has_reasoning_token choice = elim (get choice (codes "delta")) [
    | none ↦ false
    | some delta ↦
        any (λ k. nonempty (and_then (get delta k) as_str))
          (codes "reasoning_content" ∷ codes "reasoning" ∷ [])
  ]

  unfoldable pub choice_finish_reason : Value → Option Text
  choice_finish_reason choice = and_then (get choice (codes "finish_reason")) as_str

  -- `measured_choices`: is the choice at this position the one with index 0?
  unfoldable pub is_selected : ℕ → Value → Bool
  is_selected position choice = elim (and_then (get choice (codes "index")) as_u64) [
    | none ↦ position == 0
    | some index ↦ index == 0
  ]

  unfoldable pub select_from : ℕ → List Value → List Value
  select_from position [] = []
  select_from position (choice ∷ choices) =
      let rest = select_from (position + 1) choices in
      if is_selected position choice then choice ∷ rest else rest

  abbrev pub measured_choices : List Value → List Value
  measured_choices = select_from 0

  -- `response_has_visible_output`: the choice that is looked at.
  unfoldable pub answer_choice : List Value → Option Value
  answer_choice choices =
      or_else
        (find (λ c. is_some_and (and_then (get c (codes "index")) as_u64) (λ i. i == 0)) choices)
        (filter_some (first choices) (λ c. not (is_some (get c (codes "index")))))

  abbrev nonempty_text : Value → Bool
  nonempty_text v = nonempty (as_str v)

  unfoldable pub message_has_output : Value → Bool
  message_has_output message =
      is_some_and (get message (codes "content")) (λ content.
        nonempty_text content
        || is_some_and (as_array content)
            (any (λ p. is_some_and (get p (codes "text")) nonempty_text)))
      || is_some_and (and_then (get message (codes "tool_calls")) as_array)
          (λ calls. not (is_empty calls))
      || is_some_and (get message (codes "function_call")) is_object

  unfoldable pub response_has_visible_output : Value → Bool
  response_has_visible_output response =
      elim (and_then (and_then (get response (codes "choices")) as_array) answer_choice) [
        | none ↦ false
        | some choice ↦
            if is_some_and (get choice (codes "text")) nonempty_text
            then true
            else is_some_and (get choice (codes "message")) message_has_output
      ]
