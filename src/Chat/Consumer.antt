-- ===== src/Chat/Consumer.antt =====
-- The consumer of a response body, src/chat_stream.rs. Times are `Duration`s in nanoseconds.
-- `serde_json` is a parameter; the JSON of an event, its usage counts and its choices are read by
-- the functions of the sibling modules.
use bench_cli.Base.{
  ℕ, ◌-◌, Bool, true, false, not, ◌&&◌, ◌||◌, Option, none, some, List, [], ◌∷◌, ◌++◌,
  if◌then◌else◌, and_then, or_else, unwrap_or, is_some, Float, Result, ok, err,
}
use bench_cli.Text.{Text, codes, is_empty, text_eq}
use bench_cli.Json.{Json}
use bench_cli.Sse.{SseEvent, SseParser, new, done, json, raw, feed}
use bench_cli.Chat.Choice.{
  choice_output_text, choice_has_output_token, choice_has_reasoning_token, choice_finish_reason,
  measured_choices,
}
use bench_cli.Chat.Errors.{
  RequestError, stream_truncated, no_output_token, reasoning_truncated, parse_error, api_error,
}
use bench_cli.Chat.Trace.{Category, StreamEventTrace, push_if, push_trace}
use bench_cli.Chat.Usage.{usage_presence, reasoning_tokens}

pub record Usage : Type 0 where
  pub prompt_tokens : ℕ
  pub completion_tokens : ℕ
  pub total_tokens : ℕ
  pub reasoning_tokens : Option ℕ
  pub prompt_tokens_present : Bool
  pub completion_tokens_present : Bool

-- `PartialUsage`
pub record PartialUsage : Type 0 where
  pub counts : Usage
  pub usage_complete : Bool

pub record ChatStreamResult : Type 0 where
  pub latency : ℕ
  pub ttft : Option ℕ
  pub first_reasoning : Option ℕ
  pub finish_reason : Option Text
  pub itl : List ℕ
  pub counts : Usage
  pub usage_complete : Bool
  pub completion_text : Text
  pub trace : Option (List StreamEventTrace)

-- `finish_reason.as_deref() == Some("length")`
unfoldable pub is_length : Option Text → Bool
is_length none = false
is_length (some reason) = text_eq reason (codes "length")

-- `output_error`
unfoldable pub output_error : ChatStreamResult → Option RequestError
output_error r =
    if is_some r.ttft
    then none
    else if is_some r.first_reasoning && is_length r.finish_reason
    then some reasoning_truncated
    else some no_output_token

-- The part of `Consumer` that a choice changes.
pub record Progress : Type 0 where
  pub first_token_time : Option ℕ
  pub first_reasoning_time : Option ℕ
  pub last_token_at : Option ℕ
  pub itl : List ℕ
  pub saw_finish : Bool
  pub finish_reason : Option Text
  pub completion_text : Text

pub record Consumer : Type 0 where
  pub parser : SseParser
  pub trace : Option (List StreamEventTrace)
  pub progress : Progress
  pub counts : Usage
  pub done : Bool

abbrev pub start_progress : Progress
start_progress = record {
  first_token_time = none;
  first_reasoning_time = none;
  last_token_at = none;
  itl = [];
  saw_finish = false;
  finish_reason = none;
  completion_text = [];
}

abbrev pub start_usage : Usage
start_usage = record {
  prompt_tokens = 0;
  completion_tokens = 0;
  total_tokens = 0;
  reasoning_tokens = none;
  prompt_tokens_present = false;
  completion_tokens_present = false;
}

-- `Consumer::default`, with tracing on or off.
abbrev pub start : Bool → Consumer
start tracing = record {
  parser = new;
  trace = if tracing then some [] else none;
  progress = start_progress;
  counts = start_usage;
  done = false;
}

abbrev pub is_complete : Usage → Bool
is_complete u = u.prompt_tokens_present && u.completion_tokens_present

-- `partial_usage`
unfoldable pub partial_usage : Consumer → PartialUsage
partial_usage c = record { counts = c.counts; usage_complete = is_complete c.counts }

-- A visible token at `elapsed`: the first sets the first-token time, each later one adds the time
-- since the one before it.
unfoldable pub token_at : ℕ → Progress → Progress
token_at elapsed p =
    let gaps : List ℕ = elim p.last_token_at [
      | none ↦ p.itl
      | some prev ↦ p.itl ++ (elapsed - prev) ∷ []
    ] in
    if is_some p.first_token_time
    then record p { itl = gaps; last_token_at = some elapsed }
    else record p { first_token_time = some elapsed; last_token_at = some elapsed }

-- `finish`
unfoldable pub finish : Consumer → ℕ → Bool → Result ChatStreamResult RequestError
finish c latency allow_missing_ttft =
    if not c.done && not c.progress.saw_finish
    then err stream_truncated
    else if not (is_some c.progress.first_token_time) && not allow_missing_ttft
    then err no_output_token
    else ok (record {
      latency = latency;
      ttft = c.progress.first_token_time;
      first_reasoning = c.progress.first_reasoning_time;
      finish_reason = c.progress.finish_reason;
      itl = c.progress.itl;
      counts = c.counts;
      usage_complete = is_complete c.counts;
      completion_text = c.progress.completion_text;
      trace = c.trace;
    })

module _ (F : Float) (J : Json F.F64) where
  open J use {Value, from_str, get, as_u64, as_array, show}

  -- What `feed` notes of one measured choice: a finish reason,
  unfoldable pub note_finish : Value → Progress → Progress
  note_finish choice p = elim (choice_finish_reason J choice) [
    | none ↦ p
    | some reason ↦ record p { saw_finish = true; finish_reason = some reason }
  ]

  -- the first reasoning,
  unfoldable pub note_reasoning : ℕ → Value → Progress → Progress
  note_reasoning elapsed choice p =
      if not (is_some p.first_reasoning_time) && choice_has_reasoning_token J choice
      then record p { first_reasoning_time = some elapsed }
      else p

  -- a visible token,
  unfoldable pub note_token : ℕ → Value → Progress → Progress
  note_token elapsed choice p = if choice_has_output_token J choice then token_at elapsed p else p

  -- and its text.
  unfoldable pub note_text : Value → Progress → Progress
  note_text choice p = elim (choice_output_text J choice) [
    | none ↦ p
    | some text ↦ record p { completion_text = p.completion_text ++ text }
  ]

  unfoldable pub take_choice : ℕ → Progress → Value → Progress
  take_choice elapsed p choice =
      note_text choice
        (note_token elapsed choice (note_reasoning elapsed choice (note_finish choice p)))

  unfoldable pub take_choices : ℕ → Progress → List Value → Progress
  take_choices elapsed p [] = p
  take_choices elapsed p (choice ∷ rest) = take_choices elapsed (take_choice elapsed p choice) rest

  -- The measured choices of an event; none if `choices` is no array.
  unfoldable pub choices_of : Value → List Value
  choices_of parsed = elim (and_then (get parsed (codes "choices")) as_array) [
    | none ↦ []
    | some choices ↦ measured_choices J choices
  ]

  abbrev count : Value → Text → ℕ → ℕ
  count u key old = unwrap_or (and_then (get u key) as_u64) old

  -- A usage object.
  unfoldable pub take_usage : Usage → Value → Usage
  take_usage old u = record {
    prompt_tokens = count u (codes "prompt_tokens") old.prompt_tokens;
    completion_tokens = count u (codes "completion_tokens") old.completion_tokens;
    total_tokens = count u (codes "total_tokens") old.total_tokens;
    reasoning_tokens = or_else (reasoning_tokens F J u) old.reasoning_tokens;
    prompt_tokens_present = old.prompt_tokens_present || (usage_presence J u).0;
    completion_tokens_present = old.completion_tokens_present || (usage_presence J u).1;
  }

  unfoldable pub choice_categories : List Category → List Value → List Category
  choice_categories cs [] = cs
  choice_categories cs (choice ∷ rest) =
      choice_categories
        (push_if (choice_has_output_token J choice) Category.content (
          push_if (choice_has_reasoning_token J choice) Category.reasoning
            (push_if (is_some (choice_finish_reason J choice)) Category.finish cs)))
        rest

  -- The categories of an event, for the trace.
  unfoldable pub categories_of : SseEvent Value → List Category
  categories_of done = Category.done ∷ []
  categories_of (raw _) = Category.other ∷ []
  categories_of (json parsed) =
      let cs : List Category =
        choice_categories
          (push_if (is_some (get parsed (codes "usage"))) Category.usage
            (push_if (is_some (get parsed (codes "error"))) Category.error []))
          (choices_of parsed) in
      push_if (is_empty cs) Category.other cs

  -- A JSON event with no `error` member.
  unfoldable pub take_json : ℕ → Consumer → Value → Consumer
  take_json elapsed c parsed = record c {
    counts = elim (get parsed (codes "usage")) [ none ↦ c.counts | some u ↦ take_usage c.counts u ];
    progress = take_choices elapsed c.progress (choices_of parsed);
  }

  -- The `match event` of `feed`, which may return with an error.
  unfoldable pub take_event : ℕ → Consumer → SseEvent Value → Consumer × Option RequestError
  take_event elapsed c done = (record c { done = true }, none)
  take_event elapsed c (raw _) = (c, some (parse_error (codes "invalid JSON in SSE data event")))
  take_event elapsed c (json parsed) = elim (get parsed (codes "error")) [
    | some e ↦ (c, some (api_error (show e)))
    | none ↦ (take_json elapsed c parsed, none)
  ]

  -- One round of the loop of `feed`: the trace, then the event.
  unfoldable pub step_event : ℕ → Consumer → SseEvent Value → Consumer × Option RequestError
  step_event elapsed c ev =
      take_event elapsed (record c { trace = push_trace elapsed (categories_of ev) c.trace }) ev

  -- The loop of `feed` over the events of one chunk; an error ends it.
  unfoldable pub take_events : ℕ → Consumer → List (SseEvent Value) → Consumer × Option RequestError
  take_events elapsed c [] = (c, none)
  take_events elapsed c (ev ∷ rest) =
      let r = step_event elapsed c ev in
      elim r.1 [ some e ↦ (r.0, some e) | none ↦ take_events elapsed r.0 rest ]

  -- `Consumer::feed`
  unfoldable pub feed_consumer : Consumer → List ℕ → ℕ → Consumer × Option RequestError
  feed_consumer c bytes elapsed =
      let q = feed from_str c.parser bytes in take_events elapsed (record c { parser = q.0 }) q.1
