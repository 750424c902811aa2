-- ===== src/Concurrency.antt =====
-- The in-flight gauge and the hold on the concurrency cap, src/concurrency.rs. Counters are `u64`s.
pub mod System
pub mod Capped
pub mod Progress
use bench_cli.Base.{
  ℕ, ◌+◌, ◌-◌, ◌%◌, ◌^◌, max, Bool, true, false, ◌&&◌, Option, none, some, List, [], ◌∷◌, ◌++◌,
  ◌==◌, if◌then◌else◌,
}
use bench_cli.Text.{is_empty}

abbrev pub u64 : ℕ
u64 = 2 ^ 64

-- `InFlightTracker`; a sample is a count before its cast to `f64`.
pub record InFlightTracker : Type 0 where
  pub current : ℕ
  pub max_seen : ℕ
  pub samples : List ℕ
  pub acquires : ℕ
  pub waits : ℕ
  pub cap : ℕ

-- `InFlightTracker::new`
abbrev pub new : ℕ → InFlightTracker
new cap = record {
  current = 0;
  max_seen = 0;
  samples = [];
  acquires = 0;
  waits = 0;
  cap = max cap 1;
}

unfoldable pub note_acquire : Bool → InFlightTracker → InFlightTracker
note_acquire waited t = record t {
  acquires = (t.acquires + 1) % u64;
  waits = if waited then (t.waits + 1) % u64 else t.waits;
}

-- `enter` returns the count after the increment.
unfoldable pub enter : InFlightTracker → InFlightTracker × ℕ
enter t =
    let now = (t.current + 1) % u64 in
    (
      record t { current = now; max_seen = max t.max_seen now; samples = t.samples ++ now ∷ [] },
      now,
    )

-- `leave`; `fetch_sub` wraps around.
unfoldable pub leave : InFlightTracker → InFlightTracker
leave t = record t { current = (t.current + u64 - 1) % u64 }

unfoldable pub reset_counts : InFlightTracker → InFlightTracker
reset_counts t = record t { samples = []; max_seen = t.current; acquires = 0; waits = 0 }

-- The integer part of `snapshot`: `in_flight_max` before its cast, and the two counts.
unfoldable pub in_flight_max : InFlightTracker → Option ℕ
in_flight_max t = if t.max_seen == 0 && is_empty t.samples then none else some t.max_seen
