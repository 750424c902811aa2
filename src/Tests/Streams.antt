-- ===== src/Tests/Streams.antt =====
-- Streams of events that are written, cut and read, and the counts of tokens.
use bench_cli.Base.{
  any, ℕ, ◌≡◌, refl, true, false, none, some, List, [], ◌∷◌, ◌++◌, ok, arith, inl, flatten, All,
  ◌⊎◌,
}
use bench_cli.Text.{
  Text, codes, text_eq, is_empty, trim, trim_start, trim_end, is_whitespace, keep_unless_blank,
  strip_prefix, starts_with, join,
}
use bench_cli.Text.Utf8.{
  encode, encode_char, from_utf8_lossy, decode_from, decode_first, decode_end,
}
use bench_cli.Sse.{
  new, done, json, pop_if, drain_line, event_of, dispatch_event, handle_field, handle_text,
  handle_line, feed_line, feed_loop, feed,
}
use bench_cli.Sse.Chunks.{feed_all, feed_all-cut}
use bench_cli.Sse.Frames.{IsLine, IsSendable, frame, frames, feed_all-frames}
use bench_cli.Chat.Choice.{
  choice_output_text, choice_has_output_token, choice_has_reasoning_token, choice_finish_reason,
  is_selected, select_from,
}
use bench_cli.Chat.Trace.{Category, StreamEventTrace, push_trace}
use bench_cli.Chat.Consumer.{
  ChatStreamResult, start_usage, finish, token_at, note_finish, note_reasoning, note_token,
  note_text, take_choice, take_choices, choices_of, take_json, categories_of, choice_categories,
  take_event, step_event, take_events, feed_consumer, start,
}
use bench_cli.Chat.Stream.{Item, consume_loop, finish_stream, consume}
use bench_cli.Chat.Stream.Timing.{consume_times, FitIn}
use bench_cli.Chat.Errors.{rate_limit, typed, transport, opaque, from_error}
use bench_cli.Chat.Errors.Causes.{is_textual, from_error-first}
use bench_cli.Chat.Stream.Tracing.{untraced, IsNumbered, untraced-consume, consume-IsNumbered}
use bench_cli.Chat.Stream.Outcome.{event_texts, take_events-text}
use bench_cli.Chat.Stream.Said.{is_end, is_token, events_of, consume_ok-said}
use bench_cli.Tests.Parameters.{whole, echo, timeouts}

abbrev first_chunk : List ℕ
first_chunk = codes "data: hi\n\nda"

abbrev second_chunk : List ℕ
second_chunk = codes "ta: yo\n\n"

abbrev last_chunk : List ℕ
last_chunk = codes "data: [DONE]\n\n"

abbrev items : List (ℕ × Item timeouts)
items = (3000000, ok first_chunk) ∷ (7000000, ok second_chunk) ∷ (9000000, ok last_chunk) ∷ []

abbrev trace : List StreamEventTrace
trace =
    record { index = 0; t_ms = 3; categories = Category.content ∷ [] }
    ∷ record { index = 1; t_ms = 7; categories = Category.content ∷ [] }
    ∷ record { index = 2; t_ms = 9; categories = Category.done ∷ [] }
    ∷ []

abbrev result : ChatStreamResult
result = record {
  latency = 11000000;
  ttft = some 3000000;
  first_reasoning = none;
  finish_reason = none;
  itl = 4000000 ∷ [];
  counts = start_usage;
  usage_complete = false;
  completion_text = codes "hiyo";
  trace = some trace;
}

consume-items : consume whole echo timeouts false true items 11000000 ≡ ok result
unfolding consume finish_stream finish consume_loop feed_consumer take_events step_event take_event
    take_json take_choices take_choice note_finish note_reasoning note_token note_text token_at
    choices_of categories_of choice_categories push_trace choice_output_text choice_has_output_token
    choice_has_reasoning_token choice_finish_reason select_from is_selected feed feed_loop feed_line
    handle_line handle_text handle_field dispatch_event event_of drain_line pop_if from_utf8_lossy
    trim trim_start trim_end is_empty strip_prefix starts_with text_eq join decode_from decode_first
    decode_end
consume-items = refl

consume_times_example : (result.latency ≡ 11000000) × FitIn result.ttft result.itl result.latency
consume_times_example =
    consume_times whole echo timeouts false true items 11000000 result
      (omega arith, (omega arith, (omega arith, omega arith))) consume-items

-- Two events, the first of two lines.
abbrev events : List (List Text)
events = (codes "a" ∷ codes "b" ∷ []) ∷ (codes "[DONE]" ∷ []) ∷ []

a-IsLine : IsLine (codes "a")
unfolding trim_end keep_unless_blank is_whitespace
a-IsLine = record { scalars = (inl (omega arith), tt); one_line = (refl, tt); trimmed = refl }

b-IsLine : IsLine (codes "b")
unfolding trim_end keep_unless_blank is_whitespace
b-IsLine = record { scalars = (inl (omega arith), tt); one_line = (refl, tt); trimmed = refl }

done-IsLine : IsLine (codes "[DONE]")
unfolding trim_end keep_unless_blank is_whitespace
done-IsLine = record {
  scalars = (
    inl (omega arith),
    (
      inl (omega arith),
      (inl (omega arith), (inl (omega arith), (inl (omega arith), (inl (omega arith), tt)))),
    ),
  );
  one_line = (refl, (refl, (refl, (refl, (refl, (refl, tt))))));
  trimmed = refl;
}

events-IsSendable : All (IsSendable echo.from_str) events
events-IsSendable = (((λ e. cc), (a-IsLine, (b-IsLine, tt))), (((λ e. cc), (done-IsLine, tt)), tt))

abbrev sent : List (List ℕ)
sent = codes "data: a\ndat" ∷ codes "a: b\n" ∷ codes "\ndata: [DONE]\n\n" ∷ []

sent_lem : flatten sent ≡ encode (frames echo.from_str events)
unfolding encode encode_char frames frame flatten
sent_lem = refl

feed_all-frames_example : feed_all echo.from_str new sent ≡ (new, json (codes "a\nb") ∷ done ∷ [])
unfolding event_of join text_eq
feed_all-frames_example = feed_all-frames echo.from_str events sent events-IsSendable sent_lem

same_bytes :
    flatten (first_chunk ∷ second_chunk ∷ []) ≡ flatten ((first_chunk ++ second_chunk) ∷ [])
unfolding flatten
same_bytes = refl

feed_all-cut_example :
    feed_all echo.from_str new (first_chunk ∷ second_chunk ∷ [])
    ≡ feed_all echo.from_str new ((first_chunk ++ second_chunk) ∷ [])
feed_all-cut_example =
    feed_all-cut echo.from_str new (first_chunk ∷ second_chunk ∷ [])
      ((first_chunk ++ second_chunk) ∷ []) tt same_bytes

untraced-consume_example :
    untraced (consume whole echo timeouts false true items 11000000)
    ≡ consume whole echo timeouts false false items 11000000
untraced-consume_example = untraced-consume whole echo timeouts false items 11000000

consume-IsNumbered_example : IsNumbered 0 trace
consume-IsNumbered_example =
    consume-IsNumbered whole echo timeouts false true items 11000000 result trace consume-items refl

consume_ok-said_example :
    (any (is_end whole echo) (events_of whole echo timeouts (start true).parser items) ≡ true)
    × ((false ≡ true)
        ⊎ (any (is_token whole echo) (events_of whole echo timeouts (start true).parser items)
            ≡ true))
consume_ok-said_example =
    consume_ok-said whole echo timeouts false true items 11000000 result consume-items

hi-no_error : (take_events whole echo 5 (start false) (json (codes "hi") ∷ done ∷ [])).1 ≡ none
unfolding consume_loop feed_consumer take_events step_event take_event take_json take_choices
    take_choice note_finish note_reasoning note_token note_text token_at choices_of categories_of
    choice_categories push_trace choice_output_text choice_has_output_token
    choice_has_reasoning_token choice_finish_reason select_from is_selected feed feed_loop feed_line
    handle_line handle_text handle_field dispatch_event event_of drain_line pop_if from_utf8_lossy
    trim trim_start trim_end is_empty strip_prefix starts_with text_eq join decode_from decode_first
    decode_end
hi-no_error = refl

take_events-text_example :
    (take_events whole echo 5
      (start false)
      (json (codes "hi") ∷ done ∷ [])).0.progress.completion_text
    ≡ event_texts whole echo (json (codes "hi") ∷ done ∷ [])
take_events-text_example =
    take_events-text whole echo (json (codes "hi") ∷ done ∷ []) (start false) 5 hi-no_error

from_error-first_example :
    (from_error timeouts (codes "x") (opaque ∷ typed rate_limit ∷ transport tt ∷ [])
      ≡ from_error timeouts (codes "y") (typed rate_limit ∷ []))
    × (is_textual (from_error timeouts (codes "x") (opaque ∷ [])) ≡ true)
from_error-first_example =
    from_error-first timeouts (codes "x") (codes "y") (opaque ∷ []) (transport tt ∷ [])
      (typed rate_limit) (refl, tt) refl
