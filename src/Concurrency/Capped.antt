-- ===== src/Concurrency/Capped.antt =====
-- The occupancy never passes the cap, whatever the order in which the requests run.
use bench_cli.Base.{
  ℕ, ◌+◌, ◌^◌, ◌%◌, replicate, total-replicate, length-replicate, ◌≤◌, ◌<◌, ◌≡◌, some, [], ◌∷◌,
  arith, All, All-append, get_elem?, set, total, total-set, total-le, total-le-length, length,
  length-set, max,
}
use bench_cli.Concurrency.{InFlightTracker, note_acquire, enter, leave, u64}
use bench_cli.Concurrency.System.{
  Semaphore, Phase, fresh, waiting, permitted, inside, left, System, run_phase, Step, run, Reach,
  here, later, begin,
}

-- Does a request in this phase hold a permit, is it in the gauge, has it got its permit?
abbrev pub holds : Phase → ℕ
holds permitted = 1
holds inside = 1
holds left = 1
holds _ = 0

abbrev pub in_gauge : Phase → ℕ
in_gauge inside = 1
in_gauge _ = 0

abbrev pub acquired : Phase → ℕ
acquired fresh = 0
acquired waiting = 0
acquired _ = 1

abbrev pub IsSample : ℕ → ℕ → Type 0
IsSample cap x = (1 ≤ x) × (x ≤ cap)

module _ (S : Semaphore) where
  pub record Inv (cap : ℕ) (s : System S) : Type 0 where
    pub small : cap < 2 ^ 64
    pub few : length s.requests < 2 ^ 64
    pub permits_add_up : S.available s.permits + total holds s.requests ≡ cap
    pub gauge : s.tracker.current ≡ total in_gauge s.requests
    pub max_le : s.tracker.max_seen ≤ cap
    pub samples_ok : All (IsSample cap) s.tracker.samples
    pub acquires_eq : s.tracker.acquires ≡ total acquired s.requests
    pub waits_le : s.tracker.waits ≤ s.tracker.acquires

  in_gauge-le-holds : (p : Phase) → in_gauge p ≤ holds p
  in_gauge-le-holds p = ground arith

  acquired-le-one : (p : Phase) → acquired p ≤ 1
  acquired-le-one p = ground arith

  module _ {cap : ℕ} (s : System S) (i : ℕ) (before after : Phase) (p : S.Permits)
      (t : InFlightTracker) (at_i : get_elem? s.requests i ≡ some before)
      (ran : run_phase S before s.permits s.tracker ≡ some (after, p, t)) (inv : Inv cap s) where
    run_permits : S.available p + total holds (set s.requests i after) ≡ cap
    unfolding run_phase
    run_permits = ground (
      arith,
      total-set holds s.requests i before after at_i,
      S.taken s.permits p,
      S.given_back s.permits,
    )

    -- The gauge counts no more requests than hold a permit, so it stays within the cap.
    gauge-le-cap : total in_gauge (set s.requests i after) ≤ cap
    gauge-le-cap =
        omega
          (arith, run_permits, total-le in_gauge holds in_gauge-le-holds (set s.requests i after))

    run_gauge : t.current ≡ total in_gauge (set s.requests i after)
    unfolding run_phase note_acquire enter leave
    run_gauge =
        ground (arith, total-set in_gauge s.requests i before after at_i, gauge-le-cap, inv.small)

    run_max : t.max_seen ≤ cap
    unfolding run_phase note_acquire enter leave
    run_max =
        ground (arith, total-set in_gauge s.requests i before after at_i, gauge-le-cap, inv.small)

    run_samples : All (IsSample cap) t.samples
    unfolding run_phase note_acquire enter leave
    run_samples = ground (
      arith,
      total-set in_gauge s.requests i before after at_i,
      gauge-le-cap,
      inv.small,
      inv.samples_ok,
      All-append (IsSample cap) s.tracker.samples (((s.tracker.current + 1) % u64) ∷ [])
          inv.samples_ok,
    )

    acquired-le : total acquired (set s.requests i after) < 2 ^ 64
    acquired-le = omega (
      arith,
      inv.few,
      length-set s.requests i after,
      total-le-length acquired acquired-le-one (set s.requests i after),
    )

    run_acquires : t.acquires ≡ total acquired (set s.requests i after)
    unfolding run_phase note_acquire enter leave
    run_acquires = ground (arith, total-set acquired s.requests i before after at_i, acquired-le)

    run_waits : t.waits ≤ t.acquires
    unfolding run_phase note_acquire enter leave
    run_waits = ground (arith, total-set acquired s.requests i before after at_i, acquired-le)

  -- Every step keeps the invariant.
  pub Step-Inv : {cap : ℕ} {s t : System S} → Step S s t → Inv cap s → Inv cap t
  Step-Inv (run {s} i {before} {after} {p} {t} at_i ran) inv = record {
    small = inv.small;
    few = rw (length-set s.requests i after) inv.few;
    permits_add_up = run_permits s i before after p t at_i ran inv;
    gauge = run_gauge s i before after p t at_i ran inv;
    max_le = run_max s i before after p t at_i ran inv;
    samples_ok = run_samples s i before after p t at_i ran inv;
    acquires_eq = run_acquires s i before after p t at_i ran inv;
    waits_le = run_waits s i before after p t at_i ran inv;
  }

  begin-Inv :
      (cap n : ℕ) → cap < 2 ^ 32 → n < 2 ^ 64 → Inv (max cap 1) (begin S cap (replicate n fresh))
  begin-Inv cap n small few = record {
    small = omega arith;
    few = rw (length-replicate n fresh) few;
    permits_add_up =
        omega (arith, S.available-with_permits (max cap 1), total-replicate holds n fresh);
    gauge = omega (arith, total-replicate in_gauge n fresh);
    max_le = omega arith;
    samples_ok = tt;
    acquires_eq = omega (arith, total-replicate acquired n fresh);
    waits_le = omega arith;
  }

  pub Reach-Inv :
      {cap n : ℕ} {s : System S}
      → cap < 2 ^ 32
      → n < 2 ^ 64
      → Reach S (begin S cap (replicate n fresh)) s
      → Inv (max cap 1) s
  Reach-Inv {cap} {n} small few here = begin-Inv cap n small few
  Reach-Inv small few (later r st) = Step-Inv st (Reach-Inv small few r)

  -- With a semaphore that counts its permits, a cap below `2 ^ 32` and fewer than `2 ^ 64`
  -- requests: however the requests interleave, the gauge and its maximum stay within the cap (or
  -- one, for a cap of zero), each sample lies between one and the cap, and the waits are no more
  -- than the acquires.
  pub Reach-capped :
      {cap n : ℕ} {s : System S}
      → cap < 2 ^ 32
      → n < 2 ^ 64
      → Reach S (begin S cap (replicate n fresh)) s
      → (s.tracker.current ≤ max cap 1)
        × (s.tracker.max_seen ≤ max cap 1)
        × All (IsSample (max cap 1)) s.tracker.samples
        × (s.tracker.waits ≤ s.tracker.acquires)
  Reach-capped {cap} {n} {s} small few r =
      let inv = Reach-Inv small few r in
      (
        omega (
          arith,
          inv.gauge,
          inv.permits_add_up,
          total-le in_gauge holds in_gauge-le-holds s.requests,
        ),
        inv.max_le,
        inv.samples_ok,
        inv.waits_le,
      )
