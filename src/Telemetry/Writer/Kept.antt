-- ===== src/Telemetry/Writer/Kept.antt =====
-- The writer of src/telemetry/writer.rs keeps each accepted row, in order, and counts it once.
use bench_cli.Base.{
  ℕ, suc, ◌+◌, ◌%◌, ◌^◌, ◌≤◌, ◌≡◌, refl, sym, ap, ◌∙◌, subst, Bool, true, false, List, [], ◌∷◌,
  ◌++◌, append-nil, append_assoc, length, length-append, if◌then◌else◌, arith,
}
use bench_cli.Telemetry.Writer.{
  telemetry_channel_capacity, flush_every, Row, Held, idle, taken, classified, buffered_row,
  counted_row, Writer, add_dropped, add_enqueued, spawn, push, has_room, flush,
}
use bench_cli.Telemetry.Writer.Tally.{IsTally, wrap_suc}

-- Of the row that the loop holds: what is not in the buffer, what of that is classified, and
-- whether it is in the buffer and not counted.
abbrev pub pending : Held → List Row
pending (taken row) = row ∷ []
pending (classified row) = row ∷ []
pending _ = []

abbrev pub tallied : Held → List Row
tallied (classified row) = row ∷ []
tallied _ = []

abbrev pub uncounted_row : Held → ℕ
uncounted_row (buffered_row row) = 1
uncounted_row _ = 0

-- The rows that wait for a flush at most.
abbrev pub bound : Held → ℕ
bound counted_row = flush_every
bound (buffered_row row) = flush_every
bound _ = 63

abbrev pub out : Writer → List Row
out w = w.flushed ++ w.buffered

pub record IsKept (w : Writer) : Type 0 where
  pub in_order : out w ++ (pending w.held ++ w.channel) ≡ w.accepted
  pub sent : ℕ
  pub enqueued : w.counters.enqueued ≡ sent % 2 ^ 64
  pub open_sends : sent + w.uncounted ≡ length w.accepted
  pub done : ℕ
  pub written : w.counters.written ≡ done % 2 ^ 64
  pub open_row : done + uncounted_row w.held ≡ length (out w)
  pub kinds : IsTally w.counters.kinds (out w ++ tallied w.held)
  pub unflushed : w.since_flush + uncounted_row w.held ≡ length w.buffered
  pub in_capacity : length w.channel ≤ telemetry_channel_capacity

pub spawn-IsKept : IsKept spawn
spawn-IsKept = record {
  in_order = refl;
  sent = 0;
  enqueued = refl;
  open_sends = omega arith;
  done = 0;
  written = refl;
  open_row = omega arith;
  kinds = record {
    of_run = refl;
    of_stage = refl;
    of_telemetry = refl;
    of_request = refl;
    of_scrape_error = refl;
    of_summary = refl;
  };
  unflushed = omega arith;
  in_capacity = omega arith;
}

pub push-IsKept : (row : Row) (w : Writer) → IsKept w → has_room w ≡ true → IsKept (push row w)
push-IsKept row w k h = record {
  in_order =
      ap (λ rows. out w ++ rows) (sym (append_assoc (pending w.held) w.channel (row ∷ [])))
      ∙ sym (append_assoc (out w) (pending w.held ++ w.channel) (row ∷ []))
      ∙ ap (λ rows. rows ++ row ∷ []) (k.in_order);
  sent = k.sent;
  enqueued = k.enqueued;
  open_sends = omega (arith, k.open_sends, length-append w.accepted (row ∷ []));
  done = k.done;
  written = k.written;
  open_row = k.open_row;
  kinds = k.kinds;
  unflushed = k.unflushed;
  in_capacity = ground (arith, h, length-append w.channel (row ∷ []));
}

pub add_enqueued-IsKept :
    (n : ℕ) (w : Writer) → w.uncounted ≡ suc n → IsKept w → IsKept (add_enqueued n w)
add_enqueued-IsKept n w e k = record {
  in_order = k.in_order;
  sent = suc k.sent;
  enqueued = rw (k.enqueued) (wrap_suc k.sent);
  open_sends = omega (arith, k.open_sends, e);
  done = k.done;
  written = k.written;
  open_row = k.open_row;
  kinds = k.kinds;
  unflushed = k.unflushed;
  in_capacity = k.in_capacity;
}

pub add_dropped-IsKept : (w : Writer) → IsKept w → IsKept (add_dropped w)
add_dropped-IsKept w k = record {
  in_order = k.in_order;
  sent = k.sent;
  enqueued = k.enqueued;
  open_sends = k.open_sends;
  done = k.done;
  written = k.written;
  open_row = k.open_row;
  kinds = k.kinds;
  unflushed = k.unflushed;
  in_capacity = k.in_capacity;
}

pub flush-IsKept : (w : Writer) → IsKept w → w.held ≡ idle → IsKept (flush w)
unfolding flush
flush-IsKept w k e =
    let kept : out (flush w) ≡ out w = append-nil (out w) in
    record {
      in_order = ap (λ rows. rows ++ (pending w.held ++ w.channel)) kept ∙ k.in_order;
      sent = k.sent;
      enqueued = k.enqueued;
      open_sends = k.open_sends;
      done = k.done;
      written = k.written;
      open_row = k.open_row ∙ ap length (sym kept);
      kinds =
          subst (λ rows. IsTally w.counters.kinds (rows ++ tallied w.held)) (sym kept) (k.kinds);
      unflushed = omega (arith, ap uncounted_row e);
      in_capacity = k.in_capacity;
    }

-- Besides, the rows that wait for a flush are in bounds.
abbrev pub IsLive : Writer → Type 0
IsLive w = IsKept w × (length w.buffered ≤ bound w.held)

pub Live-if :
    (b : Bool) (w : Writer)
    → w.held ≡ idle
    → IsKept w
    → (b ≡ false → length w.buffered ≤ bound w.held)
    → IsLive (if b then flush w else w)
unfolding flush
Live-if true w e k h = (flush-IsKept w k e, omega arith)
Live-if false w e k h = (k, h refl)
