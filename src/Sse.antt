-- ===== src/Sse.antt =====
-- src/sse.rs: framing of a server-sent event stream. `from_str` is `serde_json::from_str`, which
-- is not part of the repository; the values that it returns are any type.
pub mod Scan
pub mod Chunks
pub mod Frames
use bench_cli.Base.{
  ℕ, zero, suc, ◌≡◌, Bool, true, false, not, ◌||◌, Option, none, some, List, [], ◌∷◌, ◌++◌, length,
  ◌==◌, if◌then◌else◌,
}
use bench_cli.Text.{Text, codes, text_eq, is_empty, trim, trim_end, strip_prefix, starts_with, join}
use bench_cli.Text.Utf8.{from_utf8_lossy}

pub data SseEvent (V : Type 0) : Type 0 where
  done : SseEvent V
  json : V → SseEvent V
  raw : Text → SseEvent V

pub record SseParser : Type 0 where
  pub pending : List ℕ
  pub data_lines : List Text

-- `SseParser::new`
abbrev pub new : SseParser
new = record { pending = []; data_lines = [] }

-- `has_pending`
unfoldable pub has_pending : SseParser → Bool
unfolding is_empty
has_pending p = not (is_empty p.pending) || not (is_empty p.data_lines)

-- `if line.last() == Some(&b) { line.pop(); }`
unfoldable pub pop_if : ℕ → List ℕ → List ℕ
pop_if b [] = []
pop_if b (c ∷ []) = if c == b then [] else c ∷ []
pop_if b (c ∷ d ∷ cs) = c ∷ pop_if b (d ∷ cs)

abbrev pub newline : ℕ
newline = b'\n'

abbrev keep_front : ℕ → Option (List ℕ × List ℕ) → Option (List ℕ × List ℕ)
keep_front b none = none
keep_front b (some (line, rest)) = some (b ∷ line, rest)

-- `pending.iter().position(|&b| b == b'\n')` and `pending.drain(..=nl)`: the bytes up to the first
-- newline, that newline included, and what stays pending.
unfoldable pub drain_line : List ℕ → Option (List ℕ × List ℕ)
drain_line [] = none
drain_line (b ∷ bs) = if b == newline then some (b ∷ [], bs) else keep_front b (drain_line bs)

module _ {V : Type 0} (from_str : Text → Option V) where
  -- The event of a joined payload.
  unfoldable pub event_of : Text → SseEvent V
  event_of payload =
      if text_eq payload (codes "[DONE]")
      then done
      else elim (from_str payload) [ some v ↦ json v | none ↦ raw payload ]

  -- `dispatch_event`, on the lines of the current event.
  unfoldable pub dispatch_event : SseParser → SseParser × Option (SseEvent V)
  dispatch_event p =
      if is_empty p.data_lines
      then (p, none)
      else (record p { data_lines = [] }, some (event_of (join (newline ∷ []) p.data_lines)))

  -- A line that is not blank and no comment: a `data:` field is kept, any other is ignored.
  unfoldable pub handle_field : SseParser → Text → SseParser × Option (SseEvent V)
  handle_field p trimmed = elim (strip_prefix (codes "data:") trimmed) [
    | none ↦ (p, none)
    | some rest ↦
        let payload : Text = elim (strip_prefix (codes " ") rest) [
          | none ↦ rest
          | some after ↦ after
        ] in
        (record p { data_lines = p.data_lines ++ payload ∷ [] }, none)
  ]

  -- `handle_line`, after the bytes are decoded.
  unfoldable pub handle_text : SseParser → Text → SseParser × Option (SseEvent V)
  handle_text p text =
      if is_empty (trim text)
      then dispatch_event p
      else if starts_with (codes ":") text
      then (p, none)
      else handle_field p (trim_end text)

  unfoldable pub handle_line : SseParser → List ℕ → SseParser × Option (SseEvent V)
  handle_line p line = handle_text p (from_utf8_lossy line)

  -- `if let Some(ev) = … { events.push(ev); }`
  abbrev pub push_event : List (SseEvent V) → Option (SseEvent V) → List (SseEvent V)
  push_event events none = events
  push_event events (some ev) = events ++ ev ∷ []

  -- The body of the loop of `feed`: the line that was drained, and what stays pending.
  unfoldable pub feed_line : SseParser → List ℕ → List ℕ → SseParser × Option (SseEvent V)
  feed_line p line rest =
      handle_line (record p { pending = rest }) (pop_if b'\r' (pop_if newline line))

  -- The `while let` of `feed`; each round takes at least the newline, so as many rounds as there
  -- are pending bytes are enough.
  unfoldable pub feed_loop : ℕ → SseParser → List (SseEvent V) → SseParser × List (SseEvent V)
  feed_loop zero p events = (p, events)
  feed_loop (suc fuel) p events = elim (drain_line p.pending) [
    | none ↦ (p, events)
    | some (line, rest) ↦
        let (q, ev) = feed_line p line rest in feed_loop fuel q (push_event events ev)
  ]

  -- `feed`
  unfoldable pub feed : SseParser → List ℕ → SseParser × List (SseEvent V)
  feed p chunk =
      let q : SseParser = record p { pending = p.pending ++ chunk } in
      feed_loop (length q.pending) q []
