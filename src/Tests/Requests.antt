-- ===== src/Tests/Requests.antt =====
-- Requests under a cap, their schedule, the warmup and the signals.
use bench_cli.Base.{
  some, ltb, if◌then◌else◌, Option, true, ℕ, ◌≤◌, ◌≡◌, refl, ◌⊎◌, false, none, [], ◌∷◌, arith, All,
  replicate,
}
use bench_cli.Concurrency.{enter, note_acquire}
use bench_cli.Concurrency.System.{
  System, fresh, finished, permitted, waiting, inside, run_phase, run, Reach, here, later, begin,
}
use bench_cli.Concurrency.Capped.{IsSample, Reach-capped}
use bench_cli.Concurrency.Progress.{CanStep, Reach-progress}
use bench_cli.Arrival.{RequestSlot}
use bench_cli.Runner.{new_barrier, new_flag, issue, drain, hard_exit}
use bench_cli.Runner.Signals.{internal_stop, signal, handle, handle-answers}
use bench_cli.Runner.Warmup.{issue-warmup}
use bench_cli.Tests.Parameters.{permits}

-- Two requests under a cap of one: the first has its permit and is inside, the second waits.
abbrev at_start : System permits
at_start = begin permits 1 (replicate 2 fresh)

abbrev with_permit : System permits
with_permit = record {
  permits = 0;
  tracker = note_acquire false at_start.tracker;
  requests = permitted ∷ fresh ∷ [];
}

abbrev in_slot : System permits
in_slot = record {
  permits = 0;
  tracker = (enter with_permit.tracker).0;
  requests = inside ∷ fresh ∷ [];
}

abbrev one_waits : System permits
one_waits = record { permits = 0; tracker = in_slot.tracker; requests = inside ∷ waiting ∷ [] }

one_waits-Reach : Reach permits at_start one_waits
unfolding run_phase
one_waits-Reach = later (later (later here (run 0 refl refl)) (run 0 refl refl)) (run 1 refl refl)

Reach-capped_example :
    (one_waits.tracker.current ≤ 1)
    × (one_waits.tracker.max_seen ≤ 1)
    × All (IsSample 1) one_waits.tracker.samples
    × (one_waits.tracker.waits ≤ one_waits.tracker.acquires)
Reach-capped_example =
    Reach-capped permits {cap = 1} {n = 2} (omega arith) (omega arith) one_waits-Reach

Reach-progress_example : All (λ b. b ≡ finished) one_waits.requests ⊎ CanStep permits one_waits
Reach-progress_example =
    Reach-progress permits {cap = 1} {n = 2} (omega arith) (omega arith) one_waits-Reach

abbrev slot : ℕ → ℕ → RequestSlot
slot seq delay = record { seq = seq; scheduled_delay = delay }

abbrev seconds : ℕ → Option ℕ
seconds n = if ltb n 100 then some n else none

-- One warmup request, whose task ends well; the barrier is passed at 50.
issue-warmup_example :
    ((issue
        (λ _. true ∷ [])
        (λ _. 50)
        (λ _. new_flag)
        (slot 0 0 ∷ slot 1 20 ∷ slot 2 40 ∷ [])
        (new_barrier 1)).0
      ≡ slot 0 0 ∷ slot 1 50 ∷ slot 2 70 ∷ [])
    × ((issue
          (λ _. true ∷ [])
          (λ _. 50)
          (λ _. new_flag)
          (slot 0 0 ∷ slot 1 20 ∷ slot 2 40 ∷ [])
          (new_barrier 1)).1.join_errors
        ≡ 0)
issue-warmup_example =
    issue-warmup (λ _. true ∷ []) (λ _. 50) (λ _. new_flag) (λ _. refl) (slot 0 0 ∷ []) (slot 1 20)
      (slot 2 40 ∷ []) none (refl, (refl, (refl, tt))) (omega arith, tt) (omega arith)

handle-answers_example :
    (handle (internal_stop ∷ signal ∷ internal_stop ∷ signal ∷ []) new_flag).0
    ≡ drain ∷ hard_exit ∷ []
handle-answers_example = handle-answers (internal_stop ∷ signal ∷ internal_stop ∷ signal ∷ [])
