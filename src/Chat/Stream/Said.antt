-- ===== src/Chat/Stream/Said.antt =====
-- What a stream that gives a result has said, `consume_with_clock` of src/chat_stream.rs.
use bench_cli.Base.{
  ℕ, ◌≡◌, ◌⊎◌, refl, ap, ◌∙◌, Bool, true, false, ◌||◌, none, is_some, any, List, [], ◌∷◌, ◌++◌,
  arith, Float, ok, err, inl, inr, Bool-cases, Option-cases,
}
use bench_cli.Json.{Json}
use bench_cli.Sse.{SseEvent, SseParser, done, json, raw, feed}
use bench_cli.Sse.Chunks.{feed_all}
use bench_cli.Chat.Choice.{choice_has_output_token, choice_finish_reason}
use bench_cli.Chat.Errors.{Reqwest}
use bench_cli.Chat.Consumer.{
  Progress, Consumer, ChatStreamResult, start, token_at, choices_of, note_finish, note_reasoning,
  note_token, note_text, take_choice, take_choices, take_json, take_event, step_event, take_events,
  feed_consumer, finish,
}
use bench_cli.Chat.Stream.{Item, consume_loop, finish_stream, consume}

any-append :
    {A : Type 0} (p : A → Bool) (xs ys : List A) → any p (xs ++ ys) ≡ (any p xs || any p ys)
any-append p [] ys = refl
any-append p (x ∷ xs) ys = ground (arith, any-append p xs ys)

module _ (F : Float) (J : Json F.F64) where
  open J use {Value, from_str}

  -- The end marker, or a measured choice with a finish reason.
  abbrev pub is_end : SseEvent Value → Bool
  is_end done = true
  is_end (raw _) = false
  is_end (json v) = any (λ choice. is_some (choice_finish_reason J choice)) (choices_of F J v)

  -- A measured choice with a visible token.
  abbrev pub is_token : SseEvent Value → Bool
  is_token done = false
  is_token (raw _) = false
  is_token (json v) = any (λ choice. choice_has_output_token J choice) (choices_of F J v)

  abbrev ended : Consumer → Bool
  ended c = c.done || c.progress.saw_finish

  abbrev seen : Consumer → Bool
  seen c = is_some c.progress.first_token_time

  take_choices-ended :
      (choices : List Value) (p : Progress) (elapsed : ℕ)
      → (take_choices F J elapsed p choices).saw_finish
        ≡ (p.saw_finish || any (λ choice. is_some (choice_finish_reason J choice)) choices)
  unfolding take_choices take_choice note_finish note_reasoning note_token note_text token_at
  take_choices-ended [] p elapsed = ground arith
  take_choices-ended (c ∷ cs) p elapsed =
      ground (arith, take_choices-ended cs (take_choice F J elapsed p c) elapsed)

  take_choices-seen :
      (choices : List Value) (p : Progress) (elapsed : ℕ)
      → is_some (take_choices F J elapsed p choices).first_token_time
        ≡ (is_some p.first_token_time || any (λ choice. choice_has_output_token J choice) choices)
  unfolding take_choices take_choice note_finish note_reasoning note_token note_text token_at
  take_choices-seen [] p elapsed = ground arith
  take_choices-seen (c ∷ cs) p elapsed =
      ground (arith, take_choices-seen cs (take_choice F J elapsed p c) elapsed)

  -- An event read with no error.
  step_event-ended :
      (ev : SseEvent Value) (c : Consumer) (elapsed : ℕ)
      → (step_event F J elapsed c ev).1 ≡ none
      → ended (step_event F J elapsed c ev).0 ≡ (ended c || is_end ev)
  unfolding step_event take_event take_json
  step_event-ended done c elapsed h = ground arith
  step_event-ended (raw x) c elapsed h = cc
  step_event-ended (json v) c elapsed h =
      ground (arith, take_choices-ended (choices_of F J v) c.progress elapsed)

  step_event-seen :
      (ev : SseEvent Value) (c : Consumer) (elapsed : ℕ)
      → (step_event F J elapsed c ev).1 ≡ none
      → seen (step_event F J elapsed c ev).0 ≡ (seen c || is_token ev)
  unfolding step_event take_event take_json
  step_event-seen done c elapsed h = ground arith
  step_event-seen (raw x) c elapsed h = cc
  step_event-seen (json v) c elapsed h =
      ground (arith, take_choices-seen (choices_of F J v) c.progress elapsed)

  step_event-parser :
      (ev : SseEvent Value) (c : Consumer) (elapsed : ℕ)
      → (step_event F J elapsed c ev).0.parser ≡ c.parser
  unfolding step_event take_event take_json
  step_event-parser done c elapsed = refl
  step_event-parser (raw x) c elapsed = refl
  step_event-parser (json v) c elapsed = ground arith

  take_events-parser :
      (evs : List (SseEvent Value)) (c : Consumer) (elapsed : ℕ)
      → (take_events F J elapsed c evs).0.parser ≡ c.parser
  unfolding take_events
  take_events-parser [] c elapsed = refl
  take_events-parser (ev ∷ evs) c elapsed = ground (
    arith,
    step_event-parser ev c elapsed,
    take_events-parser evs (step_event F J elapsed c ev).0 elapsed,
  )

  -- A flag of the consumer that each event raises when it passes a test.
  module _ (flag : Consumer → Bool) (test : SseEvent Value → Bool)
      (raised : (ev : SseEvent Value) (c : Consumer) (elapsed : ℕ)
        → (step_event F J elapsed c ev).1 ≡ none
        → flag (step_event F J elapsed c ev).0 ≡ (flag c || test ev))
      (apart : (c : Consumer) (p : SseParser) → flag (record c { parser = p }) ≡ flag c) where
    take_events-raised :
        (evs : List (SseEvent Value)) (c : Consumer) (elapsed : ℕ)
        → (take_events F J elapsed c evs).1 ≡ none
        → flag (take_events F J elapsed c evs).0 ≡ (flag c || any test evs)
    unfolding take_events
    take_events-raised [] c elapsed h = ground arith
    take_events-raised (ev ∷ evs) c elapsed h =
        elim (Option-cases (step_event F J elapsed c ev).1) [
          | inr (e, s) ↦ absurd (cc (rw (s, take_events) at h))
          | inl s ↦
              rw (s, take_events)
                (take_events-raised evs (step_event F J elapsed c ev).0 elapsed
                    (rw (s, take_events) at h)
                  ∙ ground (arith, raised ev c elapsed s))
        ]

    feed_consumer-raised :
        (c : Consumer) (bytes : List ℕ) (elapsed : ℕ)
        → (feed_consumer F J c bytes elapsed).1 ≡ none
        → flag (feed_consumer F J c bytes elapsed).0
          ≡ (flag c || any test (feed from_str c.parser bytes).1)
    unfolding feed_consumer
    feed_consumer-raised c bytes elapsed h =
        let q = feed from_str c.parser bytes in
        take_events-raised q.1 (record c { parser = q.0 }) elapsed h
        ∙ ap (λ b. b || any test q.1) (apart c q.0)

  feed_consumer-parser :
      (c : Consumer) (bytes : List ℕ) (elapsed : ℕ)
      → (feed_consumer F J c bytes elapsed).0.parser ≡ (feed from_str c.parser bytes).0
  unfolding feed_consumer
  feed_consumer-parser c bytes elapsed =
      let q = feed from_str c.parser bytes in
      take_events-parser q.1 (record c { parser = q.0 }) elapsed

  module _ (R : Reqwest) where
    -- The bytes that arrive.
    abbrev pub chunks_of : List (ℕ × Item R) → List (List ℕ)
    chunks_of [] = []
    chunks_of ((elapsed, err e) ∷ items) = chunks_of items
    chunks_of ((elapsed, ok bytes) ∷ items) = bytes ∷ chunks_of items

    -- The events of the bytes that arrive.
    abbrev pub events_of : SseParser → List (ℕ × Item R) → List (SseEvent Value)
    events_of p items = (feed_all from_str p (chunks_of items)).1

    module _ (flag : Consumer → Bool) (test : SseEvent Value → Bool)
        (raised : (ev : SseEvent Value) (c : Consumer) (elapsed : ℕ)
          → (step_event F J elapsed c ev).1 ≡ none
          → flag (step_event F J elapsed c ev).0 ≡ (flag c || test ev))
        (apart : (c : Consumer) (p : SseParser) → flag (record c { parser = p }) ≡ flag c) where
      consume_loop-raised :
          (items : List (ℕ × Item R)) (c : Consumer)
          → (consume_loop F J R c items).1 ≡ none
          → flag (consume_loop F J R c items).0 ≡ true
          → (flag c || any test (events_of c.parser items)) ≡ true
      unfolding consume_loop feed_all
      consume_loop-raised [] c h g = ground (arith, g)
      consume_loop-raised ((elapsed, err e) ∷ items) c h g = cc
      consume_loop-raised ((elapsed, ok bytes) ∷ items) c h g =
          let r = feed_consumer F J c bytes elapsed in
          let q = feed from_str c.parser bytes in
          let parser : r.0.parser ≡ q.0 = feed_consumer-parser c bytes elapsed in
          let split = any-append test q.1 (events_of q.0 items) in
          elim (Option-cases r.1) [
            | inr (e, s) ↦ absurd (cc (rw (s, consume_loop) at h))
            | inl s ↦
                let here = feed_consumer-raised flag test raised apart c bytes elapsed s in
                elim (Bool-cases r.0.done) [
                  | inl d ↦
                      let raised_here : flag r.0 ≡ true = rw (s, d, consume_loop) at g in
                      ground (arith, split, here, raised_here)
                  | inr d ↦
                      let later =
                        consume_loop-raised items r.0 (rw (s, d, consume_loop) at h)
                          (rw (s, d, consume_loop) at g) in
                      ground (arith, split, here, rw parser at later)
                ]
          ]

    guards :
        (allow tracing : Bool) (items : List (ℕ × Item R)) (end : ℕ) (r : ChatStreamResult)
        → consume F J R allow tracing items end ≡ ok r
        → ((consume_loop F J R (start tracing) items).1 ≡ none)
          × (ended (consume_loop F J R (start tracing) items).0 ≡ true)
          × ((allow ≡ true) ⊎ (seen (consume_loop F J R (start tracing) items).0 ≡ true))
    unfolding consume finish_stream finish
    guards true tracing items end r h = (ground arith, ground arith, inl refl)
    guards false tracing items end r h = (ground arith, ground arith, inr (ground arith))

    -- A result is given only for a stream of whose bytes an event is the end marker or has a measured
    -- choice with a finish reason; and, unless a missing first token is allowed, one has a measured
    -- choice with a visible token.
    pub consume_ok-said :
        (allow tracing : Bool) (items : List (ℕ × Item R)) (end : ℕ) (r : ChatStreamResult)
        → consume F J R allow tracing items end ≡ ok r
        → (any is_end (events_of (start tracing).parser items) ≡ true)
          × ((allow ≡ true) ⊎ (any is_token (events_of (start tracing).parser items) ≡ true))
    consume_ok-said allow tracing items end r h =
        let (whole, e, t) = guards allow tracing items end r h in
        (
          consume_loop-raised ended is_end step_event-ended (λ c p. refl) items (start tracing)
              whole e,
          elim t [
            | inl a ↦ inl a
            | inr s ↦ inr (
                consume_loop-raised seen is_token step_event-seen (λ c p. refl) items
                  (start tracing) whole s)
          ],
        )
