-- ===== src/Chat/Stream/Timing.antt =====
-- The token times of a stream: the first-token time and the inter-token latencies add up to the
-- time of the last token, which is not after the end.
use bench_cli.Base.{
  ℕ, ◌+◌, ◌-◌, unwrap_or, ◌≤◌, ◌≡◌, refl, Bool, Option, none, some, List, [], ◌∷◌, ◌++◌, arith,
  Float, ok, err, inl, inr, Option-cases,
}
use bench_cli.Json.{Json}
use bench_cli.Sse.{SseEvent, done, json, raw, feed}
use bench_cli.Chat.Errors.{Reqwest}
use bench_cli.Chat.Consumer.{
  Progress, Consumer, ChatStreamResult, start, token_at, take_choice, note_finish, note_reasoning,
  note_token, note_text, take_choices, choices_of, take_json, take_event, step_event, take_events,
  feed_consumer, finish,
}
use bench_cli.Chat.Stream.{Item, consume_loop, finish_stream, consume}

abbrev pub sum : List ℕ → ℕ
sum [] = 0
sum (x ∷ xs) = x + sum xs

pub sum-concat : (xs : List ℕ) (x : ℕ) → sum (xs ++ x ∷ []) ≡ sum xs + x
sum-concat [] x = omega arith
sum-concat (y ∷ xs) x = omega (arith, sum-concat xs x)

-- A first-token time and the inter-token latencies fit in a latency.
abbrev pub FitIn : Option ℕ → List ℕ → ℕ → Type 0
FitIn none itl latency = itl ≡ []
FitIn (some f) itl latency = f + sum itl ≤ latency

fit_in :
    (ttft : Option ℕ) (itl : List ℕ) (latency : ℕ)
    → ((f : ℕ) → ttft ≡ some f → f + sum itl ≤ latency)
    → (ttft ≡ none → itl ≡ [])
    → FitIn ttft itl latency
fit_in none itl latency h k = k refl
fit_in (some f) itl latency h k = h f refl

-- What the three fields say at time `now`.
abbrev Clock : Option ℕ → Option ℕ → List ℕ → ℕ → Type 0
Clock none none itl now = itl ≡ []
Clock (some f) (some l) itl now = (f + sum itl ≡ l) × (l ≤ now)
Clock _ _ itl now = ⊥

abbrev IsTimed : Progress → ℕ → Type 0
IsTimed p now = Clock p.first_token_time p.last_token_at p.itl now

Clock-later :
    (f l : Option ℕ) (itl : List ℕ) (now later : ℕ)
    → now ≤ later
    → Clock f l itl now
    → Clock f l itl later
Clock-later none none itl now later h c = c
Clock-later (some f) (some l) itl now later h c = (c.0, omega arith)
Clock-later none (some l) itl now later h c = c
Clock-later (some f) none itl now later h c = c

token_at-IsTimed :
    (p : Progress) (now elapsed : ℕ)
    → now ≤ elapsed
    → IsTimed p now
    → IsTimed (token_at elapsed p) elapsed
unfolding token_at
token_at-IsTimed p now elapsed h c =
    ground (arith, sum-concat p.itl (elapsed - unwrap_or p.last_token_at 0))

module _ (F : Float) (J : Json F.F64) where
  open J use {Value}

  note_finish-IsTimed :
      (p : Progress) (choice : Value) (now : ℕ)
      → IsTimed p now
      → IsTimed (note_finish F J choice p) now
  unfolding note_finish
  note_finish-IsTimed p choice now c = ground arith

  note_reasoning-IsTimed :
      (p : Progress) (choice : Value) (now elapsed : ℕ)
      → IsTimed p now
      → IsTimed (note_reasoning F J elapsed choice p) now
  unfolding note_reasoning
  note_reasoning-IsTimed p choice now elapsed c = ground arith

  note_text-IsTimed :
      (p : Progress) (choice : Value) (now : ℕ)
      → IsTimed p now
      → IsTimed (note_text F J choice p) now
  unfolding note_text
  note_text-IsTimed p choice now c = ground arith

  note_token-IsTimed :
      (p : Progress) (choice : Value) (now elapsed : ℕ)
      → now ≤ elapsed
      → IsTimed p now
      → IsTimed (note_token F J elapsed choice p) elapsed
  unfolding note_token
  note_token-IsTimed p choice now elapsed h c = ground (
    arith,
    token_at-IsTimed p now elapsed h c,
    Clock-later p.first_token_time p.last_token_at p.itl now elapsed h c,
  )

  take_choice-IsTimed :
      (p : Progress) (choice : Value) (now elapsed : ℕ)
      → now ≤ elapsed
      → IsTimed p now
      → IsTimed (take_choice F J elapsed p choice) elapsed
  unfolding take_choice
  take_choice-IsTimed p choice now elapsed h c =
      let a = note_finish-IsTimed p choice now c in
      let b = note_reasoning-IsTimed _ choice now elapsed a in
      note_text-IsTimed _ choice elapsed (note_token-IsTimed _ choice now elapsed h b)

  take_choices-IsTimed :
      (choices : List Value) (p : Progress) (now elapsed : ℕ)
      → now ≤ elapsed
      → IsTimed p now
      → IsTimed (take_choices F J elapsed p choices) elapsed
  unfolding take_choices
  take_choices-IsTimed [] p now elapsed h c =
      Clock-later p.first_token_time p.last_token_at p.itl now elapsed h c
  take_choices-IsTimed (ch ∷ choices) p now elapsed h c =
      take_choices-IsTimed choices (take_choice F J elapsed p ch) elapsed elapsed (omega arith)
        (take_choice-IsTimed p ch now elapsed h c)

  step_event-IsTimed :
      (ev : SseEvent Value) (c : Consumer) (now elapsed : ℕ)
      → now ≤ elapsed
      → IsTimed c.progress now
      → IsTimed (step_event F J elapsed c ev).0.progress elapsed
  unfolding step_event take_event take_json
  step_event-IsTimed done c now elapsed h t =
      Clock-later c.progress.first_token_time c.progress.last_token_at c.progress.itl now elapsed h
        t
  step_event-IsTimed (raw x) c now elapsed h t =
      Clock-later c.progress.first_token_time c.progress.last_token_at c.progress.itl now elapsed h
        t
  step_event-IsTimed (json v) c now elapsed h t = ground (
    arith,
    take_choices-IsTimed (choices_of F J v) c.progress now elapsed h t,
    Clock-later c.progress.first_token_time c.progress.last_token_at c.progress.itl now elapsed h t,
  )

  take_events-IsTimed :
      (evs : List (SseEvent Value)) (c : Consumer) (now elapsed : ℕ)
      → now ≤ elapsed
      → IsTimed c.progress now
      → IsTimed (take_events F J elapsed c evs).0.progress elapsed
  unfolding take_events
  take_events-IsTimed [] c now elapsed h t =
      Clock-later c.progress.first_token_time c.progress.last_token_at c.progress.itl now elapsed h
        t
  take_events-IsTimed (ev ∷ evs) c now elapsed h t =
      let s = step_event-IsTimed ev c now elapsed h t in
      elim (Option-cases (step_event F J elapsed c ev).1) [
        | inl e ↦
            rw (e, take_events)
              (take_events-IsTimed evs (step_event F J elapsed c ev).0 elapsed elapsed (omega arith)
                s)
        | inr (x, e) ↦ rw (e, take_events) s
      ]

  feed_consumer-IsTimed :
      (bytes : List ℕ) (c : Consumer) (now elapsed : ℕ)
      → now ≤ elapsed
      → IsTimed c.progress now
      → IsTimed (feed_consumer F J c bytes elapsed).0.progress elapsed
  unfolding feed_consumer
  feed_consumer-IsTimed bytes c now elapsed h t =
      take_events-IsTimed _ (record c { parser = (feed J.from_str c.parser bytes).0 }) now elapsed h
        t

-- The clock does not run backwards: each item is at or after the one before it, and the end at or
-- after the last.
abbrev pub Ascends : {A : Type 0} → ℕ → List (ℕ × A) → ℕ → Type 0
Ascends now [] end = now ≤ end
Ascends now ((t, _) ∷ items) end = (now ≤ t) × Ascends t items end

Ascends-le :
    {A : Type 0} (now : ℕ) (items : List (ℕ × A)) (end : ℕ) → Ascends now items end → now ≤ end
Ascends-le now [] end h = h
Ascends-le now ((t, _) ∷ items) end h = omega (arith, h.0, Ascends-le t items end h.1)

module _ (F : Float) (J : Json F.F64) (R : Reqwest) where
  consume_loop-IsTimed :
      (items : List (ℕ × Item R)) (c : Consumer) (now end : ℕ)
      → Ascends now items end
      → IsTimed c.progress now
      → IsTimed (consume_loop F J R c items).0.progress end
  unfolding consume_loop
  consume_loop-IsTimed [] c now end h t =
      Clock-later c.progress.first_token_time c.progress.last_token_at c.progress.itl now end h t
  consume_loop-IsTimed ((elapsed, err e) ∷ items) c now end h t =
      Clock-later c.progress.first_token_time c.progress.last_token_at c.progress.itl now end
        (Ascends-le now ((elapsed, err e) ∷ items) end h) t
  consume_loop-IsTimed ((elapsed, ok bytes) ∷ items) c now end h t =
      let s = feed_consumer-IsTimed F J bytes c now elapsed h.0 t in
      let q : Consumer = (feed_consumer F J c bytes elapsed).0 in
      ground (
        arith,
        Clock-later q.progress.first_token_time q.progress.last_token_at q.progress.itl elapsed end
            (Ascends-le elapsed items end h.1) s,
        consume_loop-IsTimed items q elapsed end h.1 s,
      )

  -- Of a stream that gives a result, with a clock that does not run backwards: the latency is the
  -- time of the end; the first-token time and the inter-token latencies add up to at most the
  -- latency; and with no first token there are no inter-token latencies.
  pub consume_times :
      (allow tracing : Bool) (items : List (ℕ × Item R)) (end : ℕ) (r : ChatStreamResult)
      → Ascends 0 items end
      → consume F J R allow tracing items end ≡ ok r
      → (r.latency ≡ end) × FitIn r.ttft r.itl r.latency
  unfolding consume finish_stream finish
  consume_times allow tracing items end r h e =
      let t = consume_loop-IsTimed items (start tracing) 0 end h refl in
      (ground arith, fit_in r.ttft r.itl r.latency (λ f x. ground arith) (λ x. ground arith))
