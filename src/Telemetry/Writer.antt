-- ===== src/Telemetry/Writer.antt =====
-- The writer of the telemetry rows, src/telemetry/writer.rs: the bounded channel, the counters and
-- the loop of the writer task, as steps that interleave. A counter is an `AtomicU64`, which wraps,
-- and a step changes one of them at most. `serde_json` and the file are not modelled and do not
-- fail; of the file, the rows that a flush has put into it are kept.
pub mod Tally
pub mod Kept
pub mod Advanced
pub mod Drained
use bench_cli.Base.{
  ℕ, zero, suc, ◌+◌, ◌%◌, ◌^◌, Bool, true, false, Option, none, some, and_then, List, [], ◌∷◌, ◌++◌,
  length, ltb, leb, if◌then◌else◌,
}
use bench_cli.Text.{Text, is_empty}

abbrev pub telemetry_channel_capacity : ℕ
telemetry_channel_capacity = 8192

abbrev pub flush_every : ℕ
flush_every = 64

-- `Row`, with the text that it is serialized to.
pub data Row : Type 0 where
  run stage telemetry request scrape_error summary : Text → Row

-- `WriterStats`
pub record WriterStats : Type 0 where
  pub written_rows : ℕ
  pub dropped_telemetry_rows : ℕ
  pub request_rows : ℕ
  pub telemetry_rows : ℕ
  pub scrape_error_rows : ℕ
  pub stage_rows : ℕ
  pub run_rows : ℕ
  pub summary_rows : ℕ

-- The counters of the kinds of rows.
pub record Kinds : Type 0 where
  pub request : ℕ
  pub telemetry : ℕ
  pub scrape_error : ℕ
  pub stage : ℕ
  pub run : ℕ
  pub summary : ℕ

-- `Counters`
pub record Counters : Type 0 where
  pub enqueued : ℕ
  pub written : ℕ
  pub dropped : ℕ
  pub kinds : Kinds

-- Where `writer_loop` stands: at its `select!`, or with a row that it has received, has classified,
-- has put into the buffer or has counted.
pub data Held : Type 0 where
  idle : Held
  taken classified buffered_row : Row → Held
  counted_row : Held

-- The channel, the counters and the writer task. `uncounted` sends have returned and have yet to
-- count their row; `accepted` are the rows that the channel took, a record that the program does
-- not keep.
pub record Writer : Type 0 where
  pub channel : List Row
  pub uncounted : ℕ
  pub counters : Counters
  pub held : Held
  pub since_flush : ℕ
  pub flushed : List Row
  pub buffered : List Row
  pub accepted : List Row

-- `fetch_add(1, ..)` on an `AtomicU64`: the value after it.
abbrev pub fetch_add : ℕ → ℕ
fetch_add n = (n + 1) % 2 ^ 64

-- `Counters::classify`
unfoldable pub classify : Row → Kinds → Kinds
classify (run _) k = record k { run = fetch_add k.run }
classify (stage _) k = record k { stage = fetch_add k.stage }
classify (telemetry _) k = record k { telemetry = fetch_add k.telemetry }
classify (request _) k = record k { request = fetch_add k.request }
classify (scrape_error _) k = record k { scrape_error = fetch_add k.scrape_error }
classify (summary _) k = record k { summary = fetch_add k.summary }

abbrev pub no_kinds : Kinds
no_kinds = record { request = 0; telemetry = 0; scrape_error = 0; stage = 0; run = 0; summary = 0 }

-- `Counters::snapshot`
unfoldable pub snapshot : Counters → WriterStats
snapshot c = record {
  written_rows = c.written;
  dropped_telemetry_rows = c.dropped;
  request_rows = c.kinds.request;
  telemetry_rows = c.kinds.telemetry;
  scrape_error_rows = c.kinds.scrape_error;
  stage_rows = c.kinds.stage;
  run_rows = c.kinds.run;
  summary_rows = c.kinds.summary;
}

-- `NdjsonWriter::spawn`
abbrev pub spawn : Writer
spawn = record {
  channel = [];
  uncounted = 0;
  counters = record { enqueued = 0; written = 0; dropped = 0; kinds = no_kinds };
  held = idle;
  since_flush = 0;
  flushed = [];
  buffered = [];
  accepted = [];
}

abbrev pub has_room : Writer → Bool
has_room w = ltb (length w.channel) telemetry_channel_capacity

-- A row into the channel.
abbrev pub push : Row → Writer → Writer
push row w = record w {
  channel = w.channel ++ row ∷ [];
  uncounted = suc w.uncounted;
  accepted = w.accepted ++ row ∷ [];
}

-- `fetch_add(1, ..)` of `enqueued`, with `uncounted` sends left.
abbrev pub add_enqueued : ℕ → Writer → Writer
add_enqueued uncounted w = record w {
  uncounted = uncounted;
  counters = record w.counters { enqueued = fetch_add w.counters.enqueued };
}

-- `fetch_add(1, ..)` of `dropped`
abbrev pub add_dropped : Writer → Writer
add_dropped w = record w { counters = record w.counters { dropped = fetch_add w.counters.dropped } }

-- `self.counters.enqueued.fetch_add(1, ..)` after a send has returned.
unfoldable pub count_enqueued : Writer → Option Writer
count_enqueued w = elim w.uncounted [ zero ↦ none | suc n ↦ some (add_enqueued n w) ]

-- `send_priority`, up to its count: it completes when the channel has room.
unfoldable pub send_priority : Row → Writer → Option Writer
send_priority row w = if has_room w then some (push row w) else none

-- `try_send_telemetry`, up to the count of a row that was kept.
unfoldable pub try_send_telemetry : Row → Writer → Writer
try_send_telemetry row w = if has_room w then push row w else add_dropped w

-- `out.flush()`
unfoldable pub flush : Writer → Writer
flush w = record w { since_flush = 0; flushed = w.flushed ++ w.buffered; buffered = [] }

-- `rx.recv()`
unfoldable pub receive : Writer → Option Writer
receive w = elim w.channel [
  | [] ↦ none
  | row ∷ channel ↦ some (record w { channel = channel; held = taken row })
]

-- `counters.classify(&row)`
unfoldable pub classify_row : Row → Writer → Writer
unfolding classify
classify_row row w = record w {
  counters = record w.counters { kinds = classify row w.counters.kinds };
  held = classified row;
}

-- `to_writer` and `write_all`: the row and its newline.
unfoldable pub write_row : Row → Writer → Writer
write_row row w = record w { buffered = w.buffered ++ row ∷ []; held = buffered_row row }

-- `counters.written.fetch_add(1, ..)` and `since_flush += 1`
unfoldable pub count_row : Writer → Writer
count_row w = record w {
  counters = record w.counters { written = fetch_add w.counters.written };
  since_flush = suc w.since_flush;
  held = counted_row;
}

-- The flush of a batch, and back to `select!`.
unfoldable pub end_row : Writer → Writer
unfolding flush
end_row w =
    let next : Writer = record w { held = idle } in
    if leb flush_every w.since_flush then flush next else next

-- What `writer_loop` does next of the branch that receives a row; at `select!` it needs one.
unfoldable pub advance : Writer → Option Writer
unfolding receive classify_row write_row count_row end_row
advance w = elim w.held [
  | idle ↦ receive w
  | taken row ↦ some (classify_row row w)
  | classified row ↦ some (write_row row w)
  | buffered_row row ↦ some (count_row w)
  | counted_row ↦ some (end_row w)
]

-- The branch of `writer_loop` on a tick, at `select!`.
unfoldable pub tick : Writer → Option Writer
unfolding flush
tick w =
    let next = if ltb 0 w.since_flush then flush w else w in
    elim w.held [
      | idle ↦ some next
      | taken _ ↦ none
      | classified _ ↦ none
      | buffered_row _ ↦ none
      | counted_row ↦ none
    ]

-- A step of a task.
pub data Event : Type 0 where
  priority try_telemetry : Row → Event
  counted advanced ticked : Event

unfoldable pub step : Event → Writer → Option Writer
unfolding send_priority try_send_telemetry count_enqueued advance tick
step (priority row) w = send_priority row w
step (try_telemetry row) w = some (try_send_telemetry row w)
step counted w = count_enqueued w
step advanced w = advance w
step ticked w = tick w

-- Steps one after the other, when each is possible.
unfoldable pub steps : List Event → Writer → Option Writer
unfolding step
steps [] w = some w
steps (e ∷ es) w = and_then (step e w) (λ next. steps es next)

-- The end of `writer_loop`, when the senders are gone: the row it holds, those in the channel, and
-- a last flush.
unfoldable pub drain : ℕ → Writer → Writer
unfolding advance flush
drain zero w = flush w
drain (suc fuel) w = elim (advance w) [ none ↦ flush w | some next ↦ drain fuel next ]

-- The test of `flush_pending`.
abbrev pub is_drained : Writer → Bool
is_drained w = leb w.counters.enqueued w.counters.written
