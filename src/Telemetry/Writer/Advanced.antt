-- ===== src/Telemetry/Writer/Advanced.antt =====
-- Every step of the senders and the writer task, src/telemetry/writer.rs, keeps the rows and their
-- counts.
use bench_cli.Base.{
  ℕ, zero, suc, ◌≡◌, refl, sym, ap, ap₂, ◌∙◌, subst, Bool-cases, Option-cases, ◌⊎◌, inl, inr, some,
  List, [], ◌∷◌, ◌++◌, append-nil, append_assoc, length, length-append, ltb, leb, if◌then◌else◌,
  arith,
}
use bench_cli.Telemetry.Writer.{
  flush_every, Row, Held, idle, taken, classified, buffered_row, counted_row, Writer, add_dropped,
  add_enqueued, push, has_room, count_enqueued, send_priority, try_send_telemetry, flush, receive,
  classify_row, write_row, count_row, end_row, advance, tick, Event, priority, try_telemetry,
  counted, advanced, ticked, step, steps,
}
use bench_cli.Telemetry.Writer.Tally.{IsTally, wrap_suc, classify-IsTally}
use bench_cli.Telemetry.Writer.Kept.{
  pending, tallied, uncounted_row, bound, out, IsKept, push-IsKept, add_enqueued-IsKept,
  add_dropped-IsKept, IsLive, Live-if,
}

pub channel-cases :
    (rows : List Row) → (rows ≡ []) ⊎ ((row : Row) × (rest : List Row) × (rows ≡ row ∷ rest))
channel-cases [] = inl refl
channel-cases (row ∷ rest) = inr (row, rest, refl)

receive-IsLive : (w next : Writer) → w.held ≡ idle → receive w ≡ some next → IsLive w → IsLive next
unfolding receive
receive-IsLive w next e h (k, b) = elim (channel-cases w.channel) [
  | inl c ↦ absurd (cc (rw (c, receive) at h))
  | inr (row, rest, c) ↦
      subst IsLive {x = record w { channel = rest; held = taken row }} (cc (rw (c, receive) at h)) (
        record {
          in_order =
              ap (λ rows. out w ++ rows) (sym (ap₂ (λ x y. pending x ++ y) e c)) ∙ k.in_order;
          sent = k.sent;
          enqueued = k.enqueued;
          open_sends = k.open_sends;
          done = k.done;
          written = k.written;
          open_row = omega (arith, k.open_row, ap uncounted_row e);
          kinds = subst (λ x. IsTally w.counters.kinds (out w ++ tallied x)) e (k.kinds);
          unflushed = omega (arith, k.unflushed, ap uncounted_row e);
          in_capacity = omega (arith, k.in_capacity, ap length c);
        },
        omega (arith, b, ap bound e),
      )
]

classify_row-IsLive :
    (row : Row) (w : Writer) → w.held ≡ taken row → IsLive w → IsLive (classify_row row w)
unfolding classify_row
classify_row-IsLive row w e (k, b) = (
  record {
    in_order = ap (λ x. out w ++ (pending x ++ w.channel)) (sym e) ∙ k.in_order;
    sent = k.sent;
    enqueued = k.enqueued;
    open_sends = k.open_sends;
    done = k.done;
    written = k.written;
    open_row = omega (arith, k.open_row, ap uncounted_row e);
    kinds = classify-IsTally row w.counters.kinds (out w) (
        subst (IsTally w.counters.kinds) (ap (λ x. out w ++ tallied x) e ∙ append-nil (out w))
          (k.kinds));
    unflushed = omega (arith, k.unflushed, ap uncounted_row e);
    in_capacity = k.in_capacity;
  },
  omega (arith, b, ap bound e),
)

write_row-IsLive :
    (row : Row) (w : Writer) → w.held ≡ classified row → IsLive w → IsLive (write_row row w)
unfolding write_row
write_row-IsLive row w e (k, b) =
    let more : out w ++ row ∷ [] ≡ w.flushed ++ (w.buffered ++ row ∷ []) =
      append_assoc w.flushed w.buffered (row ∷ []) in
    (
      record {
        in_order =
            ap (λ rows. rows ++ w.channel) (sym more)
            ∙ append_assoc (out w) (row ∷ []) w.channel
            ∙ ap (λ x. out w ++ (pending x ++ w.channel)) (sym e)
            ∙ k.in_order;
        sent = k.sent;
        enqueued = k.enqueued;
        open_sends = k.open_sends;
        done = k.done;
        written = k.written;
        open_row = omega (
          arith,
          k.open_row,
          ap uncounted_row e,
          ap length more,
          length-append (out w) (row ∷ []),
        );
        kinds =
            subst (IsTally w.counters.kinds)
              (ap (λ x. out w ++ tallied x) e ∙ more ∙ sym (append-nil _)) (k.kinds);
        unflushed =
            omega (arith, k.unflushed, ap uncounted_row e, length-append w.buffered (row ∷ []));
        in_capacity = k.in_capacity;
      },
      omega (arith, b, ap bound e, length-append w.buffered (row ∷ [])),
    )

count_row-IsLive :
    (row : Row) (w : Writer) → w.held ≡ buffered_row row → IsLive w → IsLive (count_row w)
unfolding count_row
count_row-IsLive row w e (k, b) = (
  record {
    in_order = ap (λ x. out w ++ (pending x ++ w.channel)) (sym e) ∙ k.in_order;
    sent = k.sent;
    enqueued = k.enqueued;
    open_sends = k.open_sends;
    done = suc k.done;
    written = rw (k.written) (wrap_suc k.done);
    open_row = omega (arith, k.open_row, ap uncounted_row e);
    kinds = subst (λ x. IsTally w.counters.kinds (out w ++ tallied x)) e (k.kinds);
    unflushed = omega (arith, k.unflushed, ap uncounted_row e);
    in_capacity = k.in_capacity;
  },
  omega (arith, b, ap bound e),
)

end_row-IsLive : (w : Writer) → w.held ≡ counted_row → IsLive w → IsLive (end_row w)
unfolding end_row
end_row-IsLive w e (k, b) =
    let next : Writer = record w { held = idle } in
    let kept : IsKept next = record {
      in_order = ap (λ x. out w ++ (pending x ++ w.channel)) (sym e) ∙ k.in_order;
      sent = k.sent;
      enqueued = k.enqueued;
      open_sends = k.open_sends;
      done = k.done;
      written = k.written;
      open_row = omega (arith, k.open_row, ap uncounted_row e);
      kinds = subst (λ x. IsTally w.counters.kinds (out w ++ tallied x)) e (k.kinds);
      unflushed = omega (arith, k.unflushed, ap uncounted_row e);
      in_capacity = k.in_capacity;
    } in
    Live-if (leb flush_every w.since_flush) next refl kept (λ f. ground (arith, f, kept.unflushed))

advance-held :
    (held : Held) (w next : Writer) → w.held ≡ held → advance w ≡ some next → IsLive w → IsLive next
unfolding advance
advance-held idle w next e h k = receive-IsLive w next e (rw (e, advance) at h) k
advance-held (taken row) w next e h k =
    subst IsLive {x = classify_row row w} (cc (rw (e, advance) at h))
      (classify_row-IsLive row w e k)
advance-held (classified row) w next e h k =
    subst IsLive {x = write_row row w} (cc (rw (e, advance) at h)) (write_row-IsLive row w e k)
advance-held (buffered_row row) w next e h k =
    subst IsLive {x = count_row w} (cc (rw (e, advance) at h)) (count_row-IsLive row w e k)
advance-held counted_row w next e h k =
    subst IsLive {x = end_row w} (cc (rw (e, advance) at h)) (end_row-IsLive w e k)

pub advance-IsLive : (w next : Writer) → advance w ≡ some next → IsLive w → IsLive next
advance-IsLive w next = advance-held w.held w next refl

tick-held :
    (held : Held) (w next : Writer) → w.held ≡ held → tick w ≡ some next → IsLive w → IsLive next
unfolding tick
tick-held idle w next e h k =
    subst IsLive {x = if ltb 0 w.since_flush then flush w else w} (cc (rw (e, tick) at h))
      (Live-if (ltb 0 w.since_flush) w e (k.0) (λ _. k.1))
tick-held (taken row) w next e h k = absurd (cc (rw (e, tick) at h))
tick-held (classified row) w next e h k = absurd (cc (rw (e, tick) at h))
tick-held (buffered_row row) w next e h k = absurd (cc (rw (e, tick) at h))
tick-held counted_row w next e h k = absurd (cc (rw (e, tick) at h))

number-cases : (n : ℕ) → (n ≡ 0) ⊎ ((m : ℕ) × (n ≡ suc m))
number-cases zero = inl refl
number-cases (suc m) = inr (m, refl)

step-IsLive : (e : Event) (w next : Writer) → IsLive w → step e w ≡ some next → IsLive next
unfolding step send_priority try_send_telemetry count_enqueued
step-IsLive (priority row) w next k h = elim (Bool-cases (has_room w)) [
  | inl e ↦ subst IsLive {x = push row w} (cc (rw (e, step) at h)) (push-IsKept row w (k.0) e, k.1)
  | inr e ↦ absurd (cc (rw (e, step) at h))
]
step-IsLive (try_telemetry row) w next k h = elim (Bool-cases (has_room w)) [
  | inl e ↦ subst IsLive {x = push row w} (cc (rw (e, step) at h)) (push-IsKept row w (k.0) e, k.1)
  | inr e ↦
      subst IsLive {x = add_dropped w} (cc (rw (e, step) at h)) (add_dropped-IsKept w (k.0), k.1)
]
step-IsLive counted w next k h = elim (number-cases w.uncounted) [
  | inl e ↦ absurd (cc (rw (e, step) at h))
  | inr (n, e) ↦
      subst IsLive {x = add_enqueued n w} (cc (rw (e, step) at h))
        (add_enqueued-IsKept n w e (k.0), k.1)
]
step-IsLive advanced w next k h = advance-IsLive w next h k
step-IsLive ticked w next k h = tick-held w.held w next refl h k

pub steps-IsLive :
    (es : List Event) (w next : Writer) → IsLive w → steps es w ≡ some next → IsLive next
unfolding steps
steps-IsLive [] w next k h = subst IsLive {x = w} (cc h) k
steps-IsLive (e ∷ es) w next k h = elim (Option-cases (step e w)) [
  | inl n ↦ absurd (cc (rw (n, steps) at h))
  | inr (after, s) ↦ steps-IsLive es after next (step-IsLive e w after k s) (rw (s, steps) at h)
]
