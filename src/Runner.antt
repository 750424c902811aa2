-- ===== src/Runner.antt =====
-- Signals and the barrier after the warmup, src/runner.rs.
pub mod Signals
pub mod Warmup
use bench_cli.Base.{
  ℕ, ◌+◌, ◌-◌, Bool, true, false, not, ◌&&◌, ◌||◌, List, [], ◌∷◌, Option, none, some, map_some,
  ◌==◌, ltb, if◌then◌else◌,
}
use bench_cli.Arrival.{
  ArrivalKind, closed_loop, constant, poisson, burst, RequestSlot, saturating_add,
}
use bench_cli.Concurrency.{InFlightTracker, reset_counts}

-- `StopFlag`; its clones share the two flags.
pub record StopFlag : Type 0 where
  pub inner : Bool
  pub signaled : Bool

pub data SignalAction : Type 0 where
  drain hard_exit : SignalAction

-- `StopFlag::new`
abbrev pub new_flag : StopFlag
new_flag = record { inner = false; signaled = false }

unfoldable pub stop : StopFlag → StopFlag
stop f = record f { inner = true }

abbrev pub is_stopped : StopFlag → Bool
is_stopped f = f.inner

-- `on_signal`
unfoldable pub on_signal : StopFlag → SignalAction × StopFlag
unfolding stop
on_signal f =
    let already = f.signaled in
    let after = stop (record f { signaled = true }) in (if already then hard_exit else drain, after)

-- `WarmupBarrier`; the tracker that it shares with the requests stands in it.
pub record WarmupBarrier : Type 0 where
  pub warmup_requests : ℕ
  pub shift : ℕ
  pub join_errors : ℕ
  pub tracker : Option InFlightTracker

-- `WarmupBarrier::new`
abbrev pub new_barrier : ℕ → WarmupBarrier
new_barrier warmup = record { warmup_requests = warmup; shift = 0; join_errors = 0; tracker = none }

-- `with_tracker`
abbrev pub with_tracker : InFlightTracker → WarmupBarrier → WarmupBarrier
with_tracker t b = record b { tracker = some t }

-- The loop over the handles, each with whether its task ends well.
unfoldable pub join_all : List Bool → WarmupBarrier → WarmupBarrier
join_all [] b = b
join_all (true ∷ hs) b = join_all hs b
join_all (false ∷ hs) b = join_all hs (record b { join_errors = b.join_errors + 1 })

-- `shifted`
unfoldable pub shifted : WarmupBarrier → RequestSlot → RequestSlot
shifted b slot = record {
  seq = slot.seq;
  scheduled_delay = saturating_add slot.scheduled_delay b.shift;
}

-- The barrier's part of `before_slot`; `elapsed` is the time that has run when all are joined.
unfoldable pub pass_barrier : RequestSlot → List Bool → ℕ → WarmupBarrier → WarmupBarrier
unfolding join_all reset_counts
pass_barrier slot handles elapsed b =
    let joined = join_all handles b in
    record joined {
      shift = elapsed - slot.scheduled_delay;
      tracker = map_some joined.tracker reset_counts;
    }

-- `before_slot`: the slot to issue, the handles that are left, and the barrier.
unfoldable pub before_slot :
    RequestSlot → List Bool → ℕ → WarmupBarrier → RequestSlot × List Bool × WarmupBarrier
unfolding shifted pass_barrier
before_slot slot handles elapsed b =
    let passed = pass_barrier slot handles elapsed b in
    if ltb 0 b.warmup_requests && slot.seq == b.warmup_requests
    then (shifted passed slot, [], passed)
    else (shifted b slot, handles, b)

-- The loop of the binary over the schedule, as far as the barrier goes: what the handles held
-- before each slot, the time that had run and the stop flag after it are the environment's. A stop
-- and a failed task of the warmup end it before the slot goes out.
unfoldable pub issue :
    (ℕ → List Bool)
    → (ℕ → ℕ)
    → (ℕ → StopFlag)
    → List RequestSlot
    → WarmupBarrier
    → List RequestSlot × WarmupBarrier
unfolding before_slot
issue handles elapsed stop_at [] b = ([], b)
issue handles elapsed stop_at (slot ∷ slots) b =
    let r = before_slot slot (handles slot.seq) (elapsed slot.seq) b in
    let rest = issue handles elapsed stop_at slots (r.2) in
    if is_stopped (stop_at slot.seq) || ltb 0 r.2.join_errors
    then ([], r.2)
    else (r.0 ∷ rest.0, rest.1)

pub data Source : Type 0 where
  max_concurrency uncapped_burst concurrency : Source

-- `effective_max_concurrency_source`
unfoldable pub effective_max_concurrency_source : ArrivalKind → Bool → Source
effective_max_concurrency_source kind true = max_concurrency
effective_max_concurrency_source burst false = uncapped_burst
effective_max_concurrency_source _ false = concurrency

-- `queue_delay_for_slot`
unfoldable pub queue_delay_for_slot : ArrivalKind → ℕ → ℕ → ℕ
queue_delay_for_slot closed_loop run_elapsed scheduled_delay = 0
queue_delay_for_slot _ run_elapsed scheduled_delay = run_elapsed - scheduled_delay

-- `should_record_schedule`
unfoldable pub should_record_schedule : ArrivalKind → Bool
should_record_schedule closed_loop = false
should_record_schedule _ = true
