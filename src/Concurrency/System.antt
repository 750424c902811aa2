-- ===== src/Concurrency/System.antt =====
-- Requests that share a semaphore and the gauge: `acquire_with_engagement`, `InFlightSlot::new` and
-- the drop of a slot, of src/concurrency.rs, as the steps of any number of requests in any order.
-- `tokio::sync::Semaphore` is not part of the repository; what is relied on is its documented
-- counting of permits.
use bench_cli.Base.{ℕ, suc, ◌≡◌, true, false, Option, none, some, List, get_elem?, set}
use bench_cli.Concurrency.{InFlightTracker, new, note_acquire, enter, leave}

pub record Semaphore : Type 1 where
  pub Permits : Type 0
  pub available : Permits → ℕ
  pub with_permits : ℕ → Permits
  pub try_acquire : Permits → Option Permits
  pub release : Permits → Permits
  pub available-with_permits : (n : ℕ) → available (with_permits n) ≡ n
  pub taken : (p q : Permits) → try_acquire p ≡ some q → available p ≡ suc (available q)
  pub refused : (p : Permits) → try_acquire p ≡ none → available p ≡ 0
  pub given_back : (p : Permits) → available (release p) ≡ suc (available p)

-- How far a request is: before `try_acquire`; waiting after a miss; with a permit; inside a slot;
-- with the guard dropped and the permit still held; with both dropped.
pub data Phase : Type 0 where
  fresh waiting permitted inside left finished : Phase

module _ (S : Semaphore) where
  open S use {Permits, with_permits, try_acquire, release}

  pub record System : Type 0 where
    pub permits : Permits
    pub tracker : InFlightTracker
    pub requests : List Phase

  -- What one request does when it runs: its new phase, and what it changed. `none`: it cannot run.
  unfoldable pub run_phase :
      Phase → Permits → InFlightTracker → Option (Phase × Permits × InFlightTracker)
  run_phase fresh p t = elim (try_acquire p) [
    | some q ↦ some (permitted, q, note_acquire false t)
    | none ↦ some (waiting, p, t)
  ]
  run_phase waiting p t = elim (try_acquire p) [
    | some q ↦ some (permitted, q, note_acquire true t)
    | none ↦ none
  ]
  run_phase permitted p t = some (inside, p, (enter t).0)
  run_phase inside p t = some (left, p, leave t)
  run_phase left p t = some (finished, release p, t)
  run_phase finished p t = none

  -- One request runs.
  pub data Step : System → System → Type 0 where
    run :
        {s : System} (i : ℕ) {before after : Phase} {p : Permits} {t : InFlightTracker}
        → get_elem? s.requests i ≡ some before
        → run_phase before s.permits s.tracker ≡ some (after, p, t)
        → Step s (record { permits = p; tracker = t; requests = set s.requests i after })

  pub data Reach (start : System) : System → Type 0 where
    here : Reach start start
    later : {s t : System} → Reach start s → Step s t → Reach start t

  -- A tracker and a semaphore of the same cap, and requests that have not begun.
  abbrev pub begin : ℕ → List Phase → System
  begin cap requests = record {
    permits = with_permits (new cap).cap;
    tracker = new cap;
    requests = requests;
  }
