-- ===== src/Telemetry/Writer/Drained.antt =====
-- What the file of src/telemetry/writer.rs holds while the run goes on, and at its end.
use bench_cli.Base.{
  ℕ, zero, suc, ◌+◌, ◌*◌, ◌%◌, ◌^◌, ◌≤◌, ◌<◌, ◌≡◌, ◌↔◌, refl, sym, ap, ap₂, ◌∙◌, subst, true, ◌⊎◌,
  Bool-cases, inl, inr, none, some, List, [], ◌++◌, append-nil, length, length-append, leb, arith,
}
use bench_cli.Telemetry.Writer.{
  telemetry_channel_capacity, flush_every, Row, Held, idle, taken, classified, buffered_row,
  counted_row, Writer, snapshot, spawn, flush, receive, classify_row, write_row, count_row, end_row,
  advance, Event, steps, drain, is_drained,
}
use bench_cli.Telemetry.Writer.Tally.{IsTally}
use bench_cli.Telemetry.Writer.Kept.{
  pending, tallied, uncounted_row, bound, IsKept, IsLive, flush-IsKept, spawn-IsKept,
}
use bench_cli.Telemetry.Writer.Advanced.{channel-cases, advance-IsLive, steps-IsLive}

bound_le : (h : Held) → bound h ≤ flush_every
bound_le idle = omega arith
bound_le (taken row) = omega arith
bound_le (classified row) = omega arith
bound_le (buffered_row row) = omega arith
bound_le counted_row = omega arith

module _ (es : List Event) (w : Writer) (h : steps es spawn ≡ some w) where
  live : IsLive w
  live = steps-IsLive es spawn w (spawn-IsKept, omega arith) h

  -- After any steps of the senders and the writer task, the rows that were flushed, the ones that
  -- wait for a flush, one that the task has received and not yet put into the buffer, and those in
  -- the channel are the accepted rows, in order. Modulo `2 ^ 64`, `enqueued` counts the accepted
  -- rows less those whose count is open, `written` the rows in the buffer or the file less one
  -- that is yet to be counted, and each counter of a kind those of its kind and a row that is
  -- classified already. No more than a batch waits, and the channel keeps its bound.
  pub steps-accounted :
      ((w.flushed ++ w.buffered) ++ (pending w.held ++ w.channel) ≡ w.accepted)
      × ((w.counters.enqueued + w.uncounted) % 2 ^ 64 ≡ length w.accepted % 2 ^ 64)
      × ((w.counters.written + uncounted_row w.held) % 2 ^ 64
          ≡ length (w.flushed ++ w.buffered) % 2 ^ 64)
      × IsTally w.counters.kinds ((w.flushed ++ w.buffered) ++ tallied w.held)
      × (length w.buffered ≤ flush_every)
      × (length w.channel ≤ telemetry_channel_capacity)
  steps-accounted = (
    live.0.in_order,
    omega (arith, live.0.enqueued, live.0.open_sends),
    omega (arith, live.0.written, live.0.open_row),
    live.0.kinds,
    omega (arith, live.1, bound_le w.held),
    live.0.in_capacity,
  )

  -- When fewer than `2 ^ 64` rows were accepted and the sends have counted theirs, the test of
  -- `flush_pending` holds exactly when each of them is in the buffer or the file, and counted.
  pub is_drained_iff :
      length w.accepted < 2 ^ 64
      → w.uncounted ≡ 0
      → (is_drained w ≡ true) ↔ (length (pending w.held ++ w.channel) + uncounted_row w.held ≡ 0)
  is_drained_iff few none_open =
      let all = length-append (w.flushed ++ w.buffered) (pending w.held ++ w.channel) in
      let order = ap length (live.0.in_order) in
      let sent : w.counters.enqueued ≡ length w.accepted =
        omega (arith, live.0.enqueued, live.0.open_sends, few, none_open) in
      let done : w.counters.written + uncounted_row w.held ≡ length (w.flushed ++ w.buffered) =
        omega (arith, live.0.written, live.0.open_row, few, all, order) in
      (
        λ b. ground (arith, b, sent, done, all, order),
        λ e. ground (arith, e, sent, done, all, order),
      )

-- How much the task has still to do.
abbrev pub stages : Held → ℕ
stages idle = 0
stages (taken row) = 4
stages (classified row) = 3
stages (buffered_row row) = 2
stages counted_row = 1

abbrev pub rounds : Writer → ℕ
rounds w = 5 * length w.channel + stages w.held

-- One thing less to do, of the same rows.
abbrev IsNext : Writer → Writer → Type 0
IsNext w next = (suc (rounds next) ≡ rounds w) × (next.accepted ≡ w.accepted)

-- Either the task has nothing to do, or it goes on.
abbrev Goes : Writer → Type 0
Goes w =
    (next : Writer) × (advance w ≡ some next)
    × (suc (rounds next) ≡ rounds w)
    × (next.accepted ≡ w.accepted)

end_row-IsNext : (w : Writer) → w.held ≡ counted_row → IsNext w (end_row w)
unfolding end_row flush
end_row-IsNext w e = elim (Bool-cases (leb flush_every w.since_flush)) [
  | inl b ↦ rw b (omega (arith, ap stages e), refl)
  | inr b ↦ rw b (omega (arith, ap stages e), refl)
]

advance-cases :
    (held : Held) (w : Writer)
    → w.held ≡ held
    → ((advance w ≡ none) × (w.channel ≡ []) × (w.held ≡ idle)) ⊎ Goes w
unfolding advance receive classify_row write_row count_row
advance-cases idle w e = elim (channel-cases w.channel) [
  | inl c ↦ inl (rw (e, c, advance) refl, c, e)
  | inr (row, rest, c) ↦ inr (
    record w { channel = rest; held = taken row },
    rw (e, c, advance) refl,
    omega (arith, ap stages e, ap length c),
    refl,
  )
]
advance-cases (taken row) w e =
    inr (classify_row row w, rw (e, advance) refl, omega (arith, ap stages e), refl)
advance-cases (classified row) w e =
    inr (write_row row w, rw (e, advance) refl, omega (arith, ap stages e), refl)
advance-cases (buffered_row row) w e =
    inr (count_row w, rw (e, advance) refl, omega (arith, ap stages e), refl)
advance-cases counted_row w e =
    let (r, a) = end_row-IsNext w e in inr (end_row w, rw (e, advance) refl, r, a)

-- All rows are written and flushed.
abbrev IsDone : List Row → Writer → Type 0
IsDone accepted w =
    IsKept w × (w.channel ≡ []) × (w.held ≡ idle) × (w.buffered ≡ []) × (w.accepted ≡ accepted)

flush-IsDone :
    (w : Writer) → IsKept w → w.channel ≡ [] → w.held ≡ idle → IsDone w.accepted (flush w)
unfolding flush
flush-IsDone w k c e = (flush-IsKept w k e, c, e, refl, refl)

drain-empty : (fuel : ℕ) (w : Writer) → advance w ≡ none → drain fuel w ≡ flush w
unfolding drain
drain-empty zero w e = refl
drain-empty (suc fuel) w e = rw (e, drain) refl

drain-next :
    (fuel : ℕ) (w next : Writer) → advance w ≡ some next → drain (suc fuel) w ≡ drain fuel next
unfolding drain
drain-next fuel w next e = rw (e, drain) refl

drain-IsDone :
    (fuel : ℕ) (w : Writer) → rounds w ≤ fuel → IsLive w → IsDone w.accepted (drain fuel w)
drain-IsDone zero w h k = elim (advance-cases w.held w refl) [
  | inl (n, c, e) ↦
      subst (IsDone w.accepted) (sym (drain-empty zero w n)) (flush-IsDone w (k.0) c e)
  | inr (next, n, r, a) ↦ absurd (omega (arith, h, r))
]
drain-IsDone (suc fuel) w h k = elim (advance-cases w.held w refl) [
  | inl (n, c, e) ↦
      subst (IsDone w.accepted) (sym (drain-empty (suc fuel) w n)) (flush-IsDone w (k.0) c e)
  | inr (next, n, r, a) ↦ subst (IsDone w.accepted) (sym (drain-next fuel w next n)) (
      subst (λ rows. IsDone rows (drain fuel next)) a
        (drain-IsDone fuel next (omega (arith, h, r)) (advance-IsLive w next n k)))
]

-- The writer task ends when the senders are gone: from any state that the steps reach, five rounds
-- for each row in the channel and those that are left of a row it holds leave the file with all
-- accepted rows, in order, and the counts of the rows and of each kind, modulo `2 ^ 64`.
pub drain-flushed :
    (es : List Event) (w : Writer)
    → steps es spawn ≡ some w
    → ((drain (rounds w) w).flushed ≡ w.accepted)
      × ((snapshot (drain (rounds w) w).counters).written_rows ≡ length w.accepted % 2 ^ 64)
      × IsTally (drain (rounds w) w).counters.kinds w.accepted
unfolding snapshot
drain-flushed es w h =
    let end = drain (rounds w) w in
    let (kept, channel, held, buffered, accepted) =
      drain-IsDone (rounds w) w (omega arith)
        (steps-IsLive es spawn w (spawn-IsKept, omega arith) h) in
    let flushed : end.flushed ++ end.buffered ≡ end.flushed =
      ap (λ rows. end.flushed ++ rows) buffered ∙ append-nil end.flushed in
    let all : end.flushed ++ end.buffered ≡ w.accepted =
      sym (append-nil _)
      ∙ ap₂ (λ x y. (end.flushed ++ end.buffered) ++ (pending x ++ y)) (sym held) (sym channel)
      ∙ kept.in_order
      ∙ accepted in
    (
      sym flushed ∙ all,
      omega (arith, kept.written, kept.open_row, ap uncounted_row held, ap length all),
      subst (IsTally end.counters.kinds)
          (ap (λ x. (end.flushed ++ end.buffered) ++ tallied x) held ∙ append-nil _ ∙ all)
          (kept.kinds),
    )
