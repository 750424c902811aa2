-- ===== src/Tests/Sweeps.antt =====
-- Sweeps, distributions, sample times and the telemetry writer.
use bench_cli.Base.{
  ℕ, suc, ◌+◌, ◌%◌, ◌^◌, ◌*◌, ◌-◌, ◌≤◌, ◌≡◌, refl, ◌⊎◌, true, false, none, some, List, [], ◌∷◌,
  ◌++◌, length, min, max, All, ltb, leb, arith,
}
use bench_cli.Text.{codes}
use bench_cli.Text.Maps.{get}
use bench_cli.Strategic.Knee.{SweepPoint, KneeDetection, concurrency}
use bench_cli.Strategic.Knee.Detect.{detect_knee_on_axis}
use bench_cli.Strategic.Knee.Detection.{IsDetection, detect_knee_on_axis-IsDetection}
use bench_cli.Stats.{Random, DistSummary, finite, from_values}
use bench_cli.Stats.Sorted.{IsCovered, from_values-IsCovered}
use bench_cli.Telemetry.History.{
  SampleHistoryMap, sample_history_cap, sample_history_max_cap, cap_of, times_of,
  sample_at_or_before,
}
use bench_cli.Telemetry.History.Newest.{
  IsNewest, newest, note_all, note_all-IsNewest, sample_history_cap-covers,
}
use bench_cli.Telemetry.Writer.{
  Row, request, telemetry, Writer, classified, Event, priority, try_telemetry, counted, advanced,
  ticked, step, steps, spawn, classify, flush, send_priority, count_enqueued, try_send_telemetry,
  advance, receive, classify_row, write_row, count_row, end_row, tick, drain, snapshot, no_kinds,
  flush_every, telemetry_channel_capacity,
}
use bench_cli.Telemetry.Writer.Tally.{IsTally}
use bench_cli.Telemetry.Writer.Kept.{pending, tallied, uncounted_row}
use bench_cli.Telemetry.Writer.Drained.{rounds, steps-accounted, drain-flushed}
use bench_cli.Tests.Parameters.{whole}

abbrev point : ℕ → ℕ → ℕ → SweepPoint whole
point load throughput p95 = record {
  load = load;
  n = 100;
  throughput = some throughput;
  p95_s = some p95;
  error_rate = some 0;
}

abbrev points : List (SweepPoint whole)
points = point 1 10 5 ∷ point 2 20 5 ∷ point 4 40 6 ∷ point 8 50 9 ∷ point 16 50 20 ∷ []

detect_knee_on_axis-IsDetection_example :
    (d : KneeDetection whole) × (detect_knee_on_axis whole points concurrency ≡ some d)
    × IsDetection whole 5 d
detect_knee_on_axis-IsDetection_example = detect_knee_on_axis-IsDetection whole points concurrency

abbrev values : List ℕ
values = 4 ∷ 1 ∷ 3 ∷ []

-- A generator that counts.
abbrev counter : Random
counter = record {
  StdRng = ℕ;
  seed_from_u64 = λ seed. seed;
  random_range = λ r n. (min r (n - 1), suc r);
}

lt_le : (a b : ℕ) → ltb a b ≡ true → leb a b ≡ true
lt_le a b h = ground arith

not_lt_le : (a b : ℕ) → true ≡ true → true ≡ true → ltb a b ≡ false → leb b a ≡ true
not_lt_le a b _ _ h = ground arith

le_trans : (a b c : ℕ) → leb a b ≡ true → leb b c ≡ true → leb a c ≡ true
le_trans a b c h g = ground arith

from_values-IsCovered_example :
    (d : DistSummary whole) × (from_values whole values ≡ some d)
    × (d.n ≡ length (finite whole values))
    × All (IsCovered whole d) (finite whole values)
from_values-IsCovered_example = from_values-IsCovered whole lt_le not_lt_le le_trans values

abbrev history : SampleHistoryMap
history = record { samples = []; caps = (codes "gpu", 2) ∷ [] }

none_yet : get history.samples (codes "gpu") ≡ none
unfolding get
none_yet = refl

abbrev times : List ℕ
times = 10 ∷ 20 ∷ 30 ∷ []

note_all-IsNewest_example :
    (times_of (note_all history (codes "gpu") times) (codes "gpu")
      ≡ newest (cap_of history (codes "gpu")) times)
    × IsNewest 25
        (newest (cap_of history (codes "gpu")) times)
        (sample_at_or_before (note_all history (codes "gpu") times) (codes "gpu") 25)
note_all-IsNewest_example =
    note_all-IsNewest history (codes "gpu") times 25 none_yet
      ((omega arith, (omega arith, tt)), ((omega arith, tt), (tt, tt)))

sample_history_cap-covers_example :
    ((300 + 60) * 1000 + 100 ≤ sample_history_cap 100 300 * max 100 1)
    ⊎ (sample_history_cap 100 300 ≡ sample_history_max_cap)
sample_history_cap-covers_example = sample_history_cap-covers 100 300 (omega arith)

abbrev row : Row
row = request (codes "{}")

abbrev sample : Row
sample = telemetry (codes "{}")

-- The first row is written and flushed on a tick; the second is classified.
abbrev events : List Event
events =
    priority row
    ∷ counted
    ∷ advanced
    ∷ advanced
    ∷ advanced
    ∷ advanced
    ∷ advanced
    ∷ ticked
    ∷ try_telemetry sample
    ∷ advanced
    ∷ advanced
    ∷ []

abbrev written : Writer
written = record {
  channel = [];
  uncounted = 1;
  counters = record {
    enqueued = 1;
    written = 1;
    dropped = 0;
    kinds = record no_kinds { request = 1; telemetry = 1 };
  };
  held = classified sample;
  since_flush = 0;
  flushed = row ∷ [];
  buffered = [];
  accepted = row ∷ sample ∷ [];
}

reached : steps events spawn ≡ some written
unfolding steps step send_priority count_enqueued try_send_telemetry advance receive classify_row
    classify write_row count_row end_row tick flush
reached = refl

steps-accounted_example :
    ((written.flushed ++ written.buffered) ++ (pending written.held ++ written.channel)
      ≡ written.accepted)
    × ((written.counters.enqueued + written.uncounted) % 2 ^ 64 ≡ length written.accepted % 2 ^ 64)
    × ((written.counters.written + uncounted_row written.held) % 2 ^ 64
        ≡ length (written.flushed ++ written.buffered) % 2 ^ 64)
    × IsTally written.counters.kinds ((written.flushed ++ written.buffered) ++ tallied written.held)
    × (length written.buffered ≤ flush_every)
    × (length written.channel ≤ telemetry_channel_capacity)
steps-accounted_example = steps-accounted events written reached

drain-flushed_example :
    ((drain (rounds written) written).flushed ≡ written.accepted)
    × ((snapshot (drain (rounds written) written).counters).written_rows
        ≡ length written.accepted % 2 ^ 64)
    × IsTally (drain (rounds written) written).counters.kinds written.accepted
drain-flushed_example = drain-flushed events written reached
