-- ===== src/Sse/Scan.antt =====
-- `feed` of src/sse.rs against a machine that reads one byte at a time. The machine has no buffer
-- to search, so how the input is cut into chunks cannot matter to it.
use bench_cli.Base.{
  ℕ, zero, suc, ◌≤◌, ◌≡◌, refl, sym, ap, ◌∙◌, false, inl, inr, Bool-cases, Option, none, some, List,
  [], ◌∷◌, ◌++◌, append-nil, append_assoc, length, length-append, All, All-append, arith, ◌==◌,
  ==_iff, if◌then◌else◌,
}
use bench_cli.Text.{Text}
use bench_cli.Sse.{
  SseEvent, SseParser, newline, pop_if, drain_line, dispatch_event, handle_field, handle_text,
  handle_line, feed_line, push_event, feed_loop, feed,
}

-- No newline among the bytes.
abbrev pub IsClean : List ℕ → Type 0
IsClean = All (λ b. (b == newline) ≡ false)

drain_line-clean : (bs : List ℕ) → IsClean bs → drain_line bs ≡ none
unfolding drain_line
drain_line-clean [] h = refl
drain_line-clean (b ∷ bs) h = ground (arith, drain_line-clean bs h.1)

drain_line-newline :
    (bs rest : List ℕ)
    → IsClean bs
    → drain_line (bs ++ newline ∷ rest) ≡ some (bs ++ newline ∷ [], rest)
unfolding drain_line
drain_line-newline [] rest h = refl
drain_line-newline (b ∷ bs) rest h = ground (arith, drain_line-newline bs rest h.1)

pop_if-concat : (b : ℕ) (bs : List ℕ) → pop_if b (bs ++ b ∷ []) ≡ bs
unfolding pop_if
pop_if-concat b [] = ground arith
pop_if-concat b (c ∷ []) = ground arith
pop_if-concat b (c ∷ d ∷ bs) = ap (◌∷◌ c) (pop_if-concat b (d ∷ bs))

abbrev parser : List ℕ → List Text → SseParser
parser bs lines = record { pending = bs; data_lines = lines }

module _ {V : Type 0} (from_str : Text → Option V) where
  -- One byte: a newline hands over the line read so far.
  unfoldable pub scan_byte : SseParser → ℕ → SseParser × Option (SseEvent V)
  scan_byte p b =
      if b == newline
      then handle_line from_str (record p { pending = [] }) (pop_if b'\r' p.pending)
      else (record p { pending = p.pending ++ b ∷ [] }, none)

  unfoldable pub scan : SseParser → List (SseEvent V) → List ℕ → SseParser × List (SseEvent V)
  unfolding scan_byte
  scan p events [] = (p, events)
  scan p events (b ∷ bs) = scan (scan_byte p b).0 (push_event from_str events (scan_byte p b).1) bs

  -- A line leaves the pending bytes alone, and does not read them.
  handle_text-pending :
      (bs cs : List ℕ) (lines : List Text) (text : Text)
      → ((handle_text from_str (parser bs lines) text).0
          ≡ parser bs (handle_text from_str (parser cs lines) text).0.data_lines)
        × ((handle_text from_str (parser bs lines) text).1
            ≡ (handle_text from_str (parser cs lines) text).1)
  unfolding handle_text handle_field dispatch_event
  handle_text-pending bs cs lines text = ground arith

  handle_line-pending :
      (bs cs : List ℕ) (lines : List Text) (line : List ℕ)
      → ((handle_line from_str (parser bs lines) line).0
          ≡ parser bs (handle_line from_str (parser cs lines) line).0.data_lines)
        × ((handle_line from_str (parser bs lines) line).1
            ≡ (handle_line from_str (parser cs lines) line).1)
  unfolding handle_line
  handle_line-pending bs cs lines line = handle_text-pending bs cs lines _

  -- A machine state whose unread bytes are put back in front is a state of the loop.
  abbrev with_unread : SseParser → List ℕ → SseParser
  with_unread p bs = parser (p.pending ++ bs) p.data_lines

  handle_line-clears :
      (lines : List Text) (line : List ℕ)
      → (handle_line from_str (parser [] lines) line).0.pending ≡ []
  handle_line-clears lines line =
      ap (λ (p : SseParser). p.pending) (handle_line-pending [] [] lines line).0

  -- One round of the loop is the machine's step on the newline.
  feed_line-scan_byte :
      (p : SseParser) (bs : List ℕ)
      → (feed_line from_str (with_unread p (newline ∷ bs)) (p.pending ++ newline ∷ []) bs).0
          ≡ with_unread (scan_byte p newline).0 bs
        × ((feed_line from_str (with_unread p (newline ∷ bs)) (p.pending ++ newline ∷ []) bs).1
            ≡ (scan_byte p newline).1)
  unfolding feed_line scan_byte
  feed_line-scan_byte p bs = rw pop_if-concat (
      let line = pop_if b'\r' p.pending in
      let moved = handle_line-pending bs [] p.data_lines line in
      let clear = handle_line-clears p.data_lines line in (cc, moved.1))

  feed_loop-newline :
      (fuel : ℕ) (p : SseParser) (events : List (SseEvent V)) (bs : List ℕ)
      → IsClean p.pending
      → feed_loop from_str (suc fuel) (with_unread p (newline ∷ bs)) events
        ≡ feed_loop from_str fuel
            (with_unread (scan_byte p newline).0 bs)
            (push_event from_str events (scan_byte p newline).1)
  unfolding feed_loop
  feed_loop-newline fuel p events bs clean =
      rw (drain_line-newline p.pending bs clean, feed_loop)
        (rw ((feed_line-scan_byte p bs).0, (feed_line-scan_byte p bs).1))

  scan_byte-IsClean :
      (p : SseParser) (b : ℕ) → IsClean p.pending → IsClean (scan_byte p b).0.pending
  unfolding scan_byte
  scan_byte-IsClean p b clean = elim (Bool-cases (b == newline)) [
    | inl e ↦ rw e (rw (handle_line-clears p.data_lines) tt)
    | inr e ↦ rw e (All-append _ p.pending (b ∷ []) clean (e, tt))
  ]

  pub scan_byte-other :
      (p : SseParser) (b : ℕ)
      → (b == newline) ≡ false
      → scan_byte p b ≡ (parser (p.pending ++ b ∷ []) p.data_lines, none)
  unfolding scan_byte
  scan_byte-other p b e = rw e

  with_unread-cons :
      (p : SseParser) (b : ℕ) (bs : List ℕ)
      → with_unread p (b ∷ bs) ≡ with_unread (parser (p.pending ++ b ∷ []) p.data_lines) bs
  with_unread-cons p b bs = rw (append_assoc p.pending (b ∷ []) bs)

  -- The loop on a buffer of read and unread bytes does what the machine does on the unread ones.
  feed_loop-scan :
      (fuel : ℕ) (p : SseParser) (events : List (SseEvent V)) (bs : List ℕ)
      → IsClean p.pending
      → length bs ≤ fuel
      → feed_loop from_str fuel (with_unread p bs) events ≡ scan p events bs
  unfolding feed_loop scan
  feed_loop-scan zero p events [] clean enough = rw append-nil
  feed_loop-scan (suc fuel) p events [] clean enough =
      rw append-nil (rw (drain_line-clean p.pending clean, feed_loop) refl)
  feed_loop-scan zero p events (b ∷ bs) clean enough = absurd (omega arith)
  feed_loop-scan (suc fuel) p events (b ∷ bs) clean enough = elim (Bool-cases (b == newline)) [
    | inl e ↦ rw ((==_iff b newline).0 e) (
        feed_loop-newline fuel p events bs clean
        ∙ feed_loop-scan fuel (scan_byte p newline).0 _ bs (scan_byte-IsClean p newline clean)
            (omega arith))
    | inr e ↦ rw (scan_byte-other p b e) (
        rw (with_unread-cons p b bs) (
          feed_loop-scan (suc fuel) (parser (p.pending ++ b ∷ []) p.data_lines) events bs
            (rw (scan_byte-other p b e) at (scan_byte-IsClean p b clean)) (omega arith)))
  ]

  -- After `feed` no newline is left pending.
  scan-IsClean :
      (p : SseParser) (events : List (SseEvent V)) (bs : List ℕ)
      → IsClean p.pending
      → IsClean (scan p events bs).0.pending
  unfolding scan
  scan-IsClean p events [] clean = clean
  scan-IsClean p events (b ∷ bs) clean =
      scan-IsClean (scan_byte p b).0 _ bs (scan_byte-IsClean p b clean)

  scan-append :
      (p : SseParser) (events : List (SseEvent V)) (xs bs : List ℕ)
      → scan p events (xs ++ bs) ≡ scan (scan p events xs).0 (scan p events xs).1 bs
  unfolding scan
  scan-append p events [] bs = refl
  scan-append p events (a ∷ xs) bs =
      scan-append (scan_byte p a).0 (push_event from_str events (scan_byte p a).1) xs bs

  push_event-append :
      (early late : List (SseEvent V)) (ev : Option (SseEvent V))
      → push_event from_str (early ++ late) ev ≡ early ++ push_event from_str late ev
  push_event-append early late none = refl
  push_event-append early late (some ev) = append_assoc early late (ev ∷ [])

  -- The events read so far are only added to.
  scan-events :
      (p : SseParser) (early late : List (SseEvent V)) (bs : List ℕ)
      → scan p (early ++ late) bs ≡ ((scan p late bs).0, early ++ (scan p late bs).1)
  unfolding scan
  scan-events p early late [] = refl
  scan-events p early late (b ∷ bs) =
      rw (push_event-append early late (scan_byte p b).1)
        (scan-events (scan_byte p b).0 early (push_event from_str late (scan_byte p b).1) bs)

  scan-after :
      (p : SseParser) (events : List (SseEvent V)) (bs : List ℕ)
      → scan p events bs ≡ ((scan p [] bs).0, events ++ (scan p [] bs).1)
  scan-after p events bs =
      ap (λ early. scan p early bs) (sym (append-nil events)) ∙ scan-events p events [] bs

  -- `feed` is the machine.
  pub feed-scan :
      (p : SseParser) (chunk : List ℕ) → IsClean p.pending → feed from_str p chunk ≡ scan p [] chunk
  unfolding feed
  feed-scan p chunk clean =
      feed_loop-scan _ p [] chunk clean (omega (arith, length-append p.pending chunk))

  pub feed-IsClean :
      (p : SseParser) (chunk : List ℕ)
      → IsClean p.pending
      → IsClean (feed from_str p chunk).0.pending
  feed-IsClean p chunk clean = rw (feed-scan p chunk clean) (scan-IsClean p [] chunk clean)

  pub feed-append :
      (p : SseParser) (xs bs : List ℕ)
      → IsClean p.pending
      → feed from_str p (xs ++ bs) ≡ (
        (feed from_str (feed from_str p xs).0 bs).0,
        (feed from_str p xs).1 ++ (feed from_str (feed from_str p xs).0 bs).1,
      )
  feed-append p xs bs clean =
      feed-scan p (xs ++ bs) clean
      ∙ scan-append p [] xs bs
      ∙ rw (feed-scan p xs clean) (
          rw (feed-scan (scan p [] xs).0 bs (scan-IsClean p [] xs clean))
            (scan-after (scan p [] xs).0 (scan p [] xs).1 bs))
