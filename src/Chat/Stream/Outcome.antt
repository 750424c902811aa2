-- ===== src/Chat/Stream/Outcome.antt =====
-- What a stream comes to: the text, the classification of its end, and what is not read.
use bench_cli.Base.{
  ℕ, ◌≡◌, ◌↔◌, ◌⊎◌, refl, sym, ◌∙◌, true, false, none, some, List, [], ◌∷◌, ◌++◌, arith, Float, ok,
  err, inl, inr, append-nil, append_assoc, unwrap_or,
}
use bench_cli.Text.{Text, codes, text_eq_iff}
use bench_cli.Json.{Json}
use bench_cli.Sse.{SseEvent, done, json, raw}
use bench_cli.Chat.Choice.{choice_output_text}
use bench_cli.Chat.Errors.{RequestError, Reqwest, reasoning_truncated}
use bench_cli.Chat.Consumer.{
  Progress, Consumer, ChatStreamResult, token_at, is_length, output_error, choices_of, note_finish,
  note_reasoning, note_token, note_text, take_choice, take_choices, take_json, take_event,
  step_event, take_events, feed_consumer,
}
use bench_cli.Chat.Stream.{Item, consume_loop}

-- A stream with a result but no visible token is reasoning that was cut off exactly if some
-- reasoning was seen and the finish reason is `length`; a stream with a visible token is no error.
pub output_error_lem :
    (r : ChatStreamResult)
    → ((output_error r ≡ none) ↔ ((t : ℕ) × (r.ttft ≡ some t)))
      × ((output_error r ≡ some reasoning_truncated) ↔ (
          (r.ttft ≡ none)
          × ((t : ℕ) × (r.first_reasoning ≡ some t))
          × (r.finish_reason ≡ some (codes "length"))))
unfolding output_error is_length
output_error_lem r =
    let same = text_eq_iff (unwrap_or r.finish_reason []) (codes "length") in
    (
      ((λ h. ground arith), (λ h. ground (arith, h.1))),
      (
        (λ h. (ground arith, ground arith, ground (arith, same))),
        (λ h. ground (arith, h.0, h.1.1, h.2, same)),
      ),
    )

-- The text that the measured choices of an event add.
abbrev pub texts : (F : Float) (J : Json F.F64) → List J.Value → Text
texts F J [] = []
texts F J (c ∷ cs) = unwrap_or (choice_output_text J c) [] ++ texts F J cs

module _ (F : Float) (J : Json F.F64) where
  open J use {Value}

  take_choice-text :
      (p : Progress) (choice : Value) (elapsed : ℕ)
      → (take_choice F J elapsed p choice).completion_text
        ≡ p.completion_text ++ unwrap_or (choice_output_text J choice) []
  unfolding take_choice note_finish note_reasoning note_token note_text token_at
  take_choice-text p choice elapsed = ground (arith, append-nil p.completion_text)

  take_choices-text :
      (choices : List Value) (p : Progress) (elapsed : ℕ)
      → (take_choices F J elapsed p choices).completion_text
        ≡ p.completion_text ++ texts F J choices
  unfolding take_choices
  take_choices-text [] p elapsed = sym (append-nil p.completion_text)
  take_choices-text (c ∷ cs) p elapsed =
      take_choices-text cs (take_choice F J elapsed p c) elapsed
      ∙ rw (take_choice-text p c elapsed) (append_assoc p.completion_text _ (texts F J cs))

  abbrev pub event_text : SseEvent Value → Text
  event_text done = []
  event_text (raw _) = []
  event_text (json v) = texts F J (choices_of F J v)

  -- The text of the measured choices of the events, in order.
  abbrev pub event_texts : List (SseEvent Value) → Text
  event_texts [] = []
  event_texts (ev ∷ evs) = event_text ev ++ event_texts evs

  step_event-text :
      (ev : SseEvent Value) (c : Consumer) (elapsed : ℕ)
      → (step_event F J elapsed c ev).1 ≡ none
      → (step_event F J elapsed c ev).0.progress.completion_text
        ≡ c.progress.completion_text ++ event_text ev
  unfolding step_event take_event take_json
  step_event-text done c elapsed h = sym (append-nil c.progress.completion_text)
  step_event-text (raw x) c elapsed h = cc
  step_event-text (json v) c elapsed h =
      ground (arith, take_choices-text (choices_of F J v) c.progress elapsed)

  -- A chunk that is read with no error adds to the text what the measured choices of its events
  -- carry, in order.
  pub take_events-text :
      (evs : List (SseEvent Value)) (c : Consumer) (elapsed : ℕ)
      → (take_events F J elapsed c evs).1 ≡ none
      → (take_events F J elapsed c evs).0.progress.completion_text
        ≡ c.progress.completion_text ++ event_texts evs
  unfolding take_events
  take_events-text [] c elapsed h = sym (append-nil c.progress.completion_text)
  take_events-text (ev ∷ evs) c elapsed h =
      let q : Consumer = (step_event F J elapsed c ev).0 in
      ground (
        arith,
        step_event-text ev c elapsed,
        take_events-text evs q elapsed,
        append_assoc c.progress.completion_text (event_text ev) (event_texts evs),
      )

module _ (F : Float) (J : Json F.F64) (R : Reqwest) where
  -- Once a stream has ended, by the end marker or by an error, what the transport delivers later is not
  -- read.
  pub consume_loop_ended :
      (items late : List (ℕ × Item R)) (c : Consumer)
      → c.done ≡ false
      → ((consume_loop F J R c items).0.done ≡ true)
        ⊎ ((e : RequestError) × ((consume_loop F J R c items).1 ≡ some e))
      → consume_loop F J R c (items ++ late) ≡ consume_loop F J R c items
  unfolding consume_loop
  consume_loop_ended [] late c h (inl e) = cc
  consume_loop_ended [] late c h (inr (x, e)) = cc
  consume_loop_ended ((elapsed, err e) ∷ items) late c h k = refl
  consume_loop_ended ((elapsed, ok bytes) ∷ items) late c h k =
      ground (arith, consume_loop_ended items late (feed_consumer F J c bytes elapsed).0)
