-- ===== src/Chat/Stream.antt =====
-- `consume_with_clock` of src/chat_stream.rs: the loop over a response body. The body is the list of
-- what the transport delivers, each item with the clock reading at its arrival; `finish` reads the
-- clock once more. The drain after a result was built reads on without changing it, and is left out.
pub mod Timing
pub mod Tracing
pub mod Outcome
pub mod Said
use bench_cli.Base.{
  ℕ, Bool, true, false, Option, none, some, List, [], ◌∷◌, if◌then◌else◌, Float, Result, ok, err,
}
use bench_cli.Json.{Json}
use bench_cli.Chat.Errors.{RequestError, Reqwest, from_reqwest}
use bench_cli.Chat.Consumer.{
  Consumer, PartialUsage, ChatStreamResult, start, partial_usage, finish, feed_consumer,
}

-- `ChatStreamFailure`
pub record ChatStreamFailure : Type 0 where
  pub error : RequestError
  pub usage : PartialUsage

abbrev pub fail : {A : Type 0} → RequestError → Consumer → Result A ChatStreamFailure
fail e c = err (record { error = e; usage = partial_usage c })

-- `finish`, its error with the usage seen.
unfoldable pub finish_stream : Consumer → ℕ → Bool → Result ChatStreamResult ChatStreamFailure
finish_stream c latency allow_missing_ttft = elim (finish c latency allow_missing_ttft) [
  | ok r ↦ ok r
  | err e ↦ fail e c
]

-- An item of the body: bytes, or an error of the transport.
abbrev pub Item : Reqwest → Type 0
Item R = Result (List ℕ) R.Error

module _ (F : Float) (J : Json F.F64) (R : Reqwest) where
  -- The loop, and what ended it early.
  unfoldable pub consume_loop : Consumer → List (ℕ × Item R) → Consumer × Option RequestError
  consume_loop c [] = (c, none)
  consume_loop c ((elapsed, err e) ∷ items) = (c, some (from_reqwest R e))
  consume_loop c ((elapsed, ok bytes) ∷ items) =
      let r = feed_consumer F J c bytes elapsed in
      let onward : Consumer × Option RequestError =
        if r.0.done then (r.0, none) else consume_loop r.0 items in
      elim r.1 [ some e ↦ (r.0, some e) | none ↦ onward ]

  -- `consume_with_clock`; `end` is the clock reading of `finish`.
  unfoldable pub consume :
      Bool → Bool → List (ℕ × Item R) → ℕ → Result ChatStreamResult ChatStreamFailure
  consume allow_missing_ttft tracing items end =
      let r = consume_loop (start tracing) items in
      elim r.1 [ some e ↦ fail e r.0 | none ↦ finish_stream r.0 end allow_missing_ttft ]
