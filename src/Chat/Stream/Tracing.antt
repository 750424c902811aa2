-- ===== src/Chat/Stream/Tracing.antt =====
-- Tracing observes a stream and changes nothing else; the entries are numbered in order.
use bench_cli.Base.{
  ℕ, suc, ◌+◌, ◌%◌, ◌^◌, ◌≡◌, refl, ◌∙◌, Bool, true, false, Option, none, some, List, [], ◌∷◌, ◌++◌,
  arith, Float, Result, ok, err, length, subst,
}
use bench_cli.Json.{Json}
use bench_cli.Sse.{SseEvent, feed}
use bench_cli.Chat.Errors.{Reqwest}
use bench_cli.Chat.Trace.{StreamEventTrace, Category, push_trace}
use bench_cli.Chat.Consumer.{
  Consumer, ChatStreamResult, start, categories_of, take_json, take_event, step_event, take_events,
  feed_consumer, finish, partial_usage,
}
use bench_cli.Chat.Stream.{Item, ChatStreamFailure, consume_loop, finish_stream, consume}

abbrev erase : Consumer → Consumer
erase c = record c { trace = none }

abbrev erased : {A : Type 0} → Consumer × A → Consumer × A
erased r = (erase r.0, r.1)

-- A result or failure, less its trace.
abbrev pub untraced :
    Result ChatStreamResult ChatStreamFailure → Result ChatStreamResult ChatStreamFailure
untraced (ok r) = ok (record r { trace = none })
untraced (err e) = err e

-- The entries carry the numbers from `i` on, modulo `2 ^ 32`.
abbrev pub IsNumbered : ℕ → List StreamEventTrace → Type 0
IsNumbered i [] = Unit
IsNumbered i (t ∷ ts) = (t.index ≡ i % 2 ^ 32) × IsNumbered (suc i) ts

IsNumbered-concat :
    (ts : List StreamEventTrace) (i : ℕ) (t : StreamEventTrace)
    → IsNumbered i ts
    → t.index ≡ (i + length ts) % 2 ^ 32
    → IsNumbered i (ts ++ t ∷ [])
IsNumbered-concat [] i t h e = (omega (arith, e), tt)
IsNumbered-concat (u ∷ ts) i t h e = (h.0, IsNumbered-concat ts (suc i) t h.1 (omega (arith, e)))

abbrev Numbered : Option (List StreamEventTrace) → Type 0
Numbered none = Unit
Numbered (some ts) = IsNumbered 0 ts

push_trace-Numbered :
    (elapsed : ℕ) (cs : List Category) (t : Option (List StreamEventTrace))
    → Numbered t
    → Numbered (push_trace elapsed cs t)
unfolding push_trace
push_trace-Numbered elapsed cs none h = h
push_trace-Numbered elapsed cs (some ts) h = IsNumbered-concat ts 0 _ h (omega arith)

module _ (F : Float) (J : Json F.F64) where
  open J use {Value}

  step_event-erase :
      (ev : SseEvent Value) (c : Consumer) (elapsed : ℕ)
      → step_event F J elapsed (erase c) ev ≡ erased (step_event F J elapsed c ev)
  unfolding step_event take_event take_json push_trace
  step_event-erase ev c elapsed = ground arith

  step_event-Numbered :
      (ev : SseEvent Value) (c : Consumer) (elapsed : ℕ)
      → Numbered c.trace
      → Numbered (step_event F J elapsed c ev).0.trace
  unfolding step_event take_event take_json
  step_event-Numbered ev c elapsed h =
      ground (arith, push_trace-Numbered elapsed (categories_of F J ev) c.trace h)

  take_events-erase :
      (evs : List (SseEvent Value)) (c : Consumer) (elapsed : ℕ)
      → take_events F J elapsed (erase c) evs ≡ erased (take_events F J elapsed c evs)
  unfolding take_events
  take_events-erase [] c elapsed = refl
  take_events-erase (ev ∷ evs) c elapsed = ground (
    arith,
    step_event-erase ev c elapsed,
    take_events-erase evs (step_event F J elapsed c ev).0 elapsed,
  )

  take_events-Numbered :
      (evs : List (SseEvent Value)) (c : Consumer) (elapsed : ℕ)
      → Numbered c.trace
      → Numbered (take_events F J elapsed c evs).0.trace
  unfolding take_events
  take_events-Numbered [] c elapsed h = h
  take_events-Numbered (ev ∷ evs) c elapsed h =
      let s = step_event-Numbered ev c elapsed h in
      ground (arith, s, take_events-Numbered evs (step_event F J elapsed c ev).0 elapsed s)

  feed_consumer-erase :
      (bytes : List ℕ) (c : Consumer) (elapsed : ℕ)
      → feed_consumer F J (erase c) bytes elapsed ≡ erased (feed_consumer F J c bytes elapsed)
  unfolding feed_consumer
  feed_consumer-erase bytes c elapsed =
      take_events-erase _ (record c { parser = (feed J.from_str c.parser bytes).0 }) elapsed

  feed_consumer-Numbered :
      (bytes : List ℕ) (c : Consumer) (elapsed : ℕ)
      → Numbered c.trace
      → Numbered (feed_consumer F J c bytes elapsed).0.trace
  unfolding feed_consumer
  feed_consumer-Numbered bytes c elapsed h =
      take_events-Numbered _ (record c { parser = (feed J.from_str c.parser bytes).0 }) elapsed h

start-Numbered : (tracing : Bool) → Numbered (start tracing).trace
start-Numbered true = tt
start-Numbered false = tt

module _ (F : Float) (J : Json F.F64) (R : Reqwest) where
  consume_loop-erase :
      (items : List (ℕ × Item R)) (c : Consumer)
      → consume_loop F J R (erase c) items ≡ erased (consume_loop F J R c items)
  unfolding consume_loop
  consume_loop-erase [] c = refl
  consume_loop-erase ((elapsed, err e) ∷ items) c = refl
  consume_loop-erase ((elapsed, ok bytes) ∷ items) c = ground (
    arith,
    feed_consumer-erase F J bytes c elapsed,
    consume_loop-erase items (feed_consumer F J c bytes elapsed).0,
  )

  consume_loop-Numbered :
      (items : List (ℕ × Item R)) (c : Consumer)
      → Numbered c.trace
      → Numbered (consume_loop F J R c items).0.trace
  unfolding consume_loop
  consume_loop-Numbered [] c h = h
  consume_loop-Numbered ((elapsed, err e) ∷ items) c h = h
  consume_loop-Numbered ((elapsed, ok bytes) ∷ items) c h =
      let s = feed_consumer-Numbered F J bytes c elapsed h in
      ground (arith, s, consume_loop-Numbered items (feed_consumer F J c bytes elapsed).0 s)

  -- Consuming a stream with tracing on gives what it gives with tracing off, but for the trace.
  pub untraced-consume :
      (allow : Bool) (items : List (ℕ × Item R)) (end : ℕ)
      → untraced (consume F J R allow true items end) ≡ consume F J R allow false items end
  unfolding consume finish_stream finish partial_usage
  untraced-consume allow items end = ground (arith, consume_loop-erase items (start true))

  consume_trace :
      (allow tracing : Bool) (items : List (ℕ × Item R)) (end : ℕ) (r : ChatStreamResult)
      → consume F J R allow tracing items end ≡ ok r
      → (consume_loop F J R (start tracing) items).0.trace ≡ r.trace
  unfolding consume finish_stream finish
  consume_trace allow tracing items end r e = ground arith

  -- The trace of a result, if there is one, has its entries numbered from 0 in order, modulo
  -- `2 ^ 32`.
  pub consume-IsNumbered :
      (allow tracing : Bool) (items : List (ℕ × Item R)) (end : ℕ) (r : ChatStreamResult)
      (ts : List StreamEventTrace)
      → consume F J R allow tracing items end ≡ ok r
      → r.trace ≡ some ts
      → IsNumbered 0 ts
  consume-IsNumbered allow tracing items end r ts e t =
      subst Numbered (consume_trace allow tracing items end r e ∙ t)
        (consume_loop-Numbered items (start tracing) (start-Numbered tracing))
