-- ===== src/Concurrency/Progress.antt =====
-- No deadlock: while a request is unfinished, some request can run.
use bench_cli.Base.{
  ℕ, suc, ◌^◌, ◌<◌, ◌≡◌, ◌≢◌, ◌⊎◌, refl, true, false, some, List, [], ◌∷◌, arith, All, get_elem?,
  total, replicate, Option-cases, inl, inr,
}
use bench_cli.Concurrency.{note_acquire}
use bench_cli.Concurrency.System.{
  Semaphore, Phase, fresh, waiting, permitted, inside, left, finished, System, run_phase, Step, run,
  Reach, begin,
}
use bench_cli.Concurrency.Capped.{holds, Reach-Inv}

-- A request that can run whatever the semaphore says, one that waits for a permit, or none left.
data Look (requests : List Phase) : Type 0 where
  ready :
      (i : ℕ) (b : Phase)
      → get_elem? requests i ≡ some b
      → b ≢ waiting
      → b ≢ finished
      → Look requests
  waits : (i : ℕ) → get_elem? requests i ≡ some waiting → total holds requests ≡ 0 → Look requests
  over : All (λ b. b ≡ finished) requests → total holds requests ≡ 0 → Look requests

Look-cons : (b : Phase) (requests : List Phase) → Look requests → Look (b ∷ requests)
Look-cons waiting requests (ready i b e n m) = ready (suc i) b e n m
Look-cons waiting requests (waits i e z) = waits 0 refl (omega arith)
Look-cons waiting requests (over a z) = waits 0 refl (omega arith)
Look-cons finished requests (ready i b e n m) = ready (suc i) b e n m
Look-cons finished requests (waits i e z) = waits (suc i) e (omega arith)
Look-cons finished requests (over a z) = over (refl, a) (omega arith)
Look-cons fresh requests l = ready 0 fresh refl (λ e. cc) (λ e. cc)
Look-cons permitted requests l = ready 0 permitted refl (λ e. cc) (λ e. cc)
Look-cons inside requests l = ready 0 inside refl (λ e. cc) (λ e. cc)
Look-cons left requests l = ready 0 left refl (λ e. cc) (λ e. cc)

look : (requests : List Phase) → Look requests
look [] = over tt refl
look (b ∷ requests) = Look-cons b requests (look requests)

module _ (S : Semaphore) where
  abbrev pub CanStep : System S → Type 0
  CanStep s = (t : System S) × Step S s t

  ready-CanStep :
      (s : System S) (i : ℕ) (b : Phase)
      → get_elem? s.requests i ≡ some b
      → b ≢ waiting
      → b ≢ finished
      → CanStep s
  unfolding run_phase
  ready-CanStep s i fresh e n m = elim (Option-cases (S.try_acquire s.permits)) [
    | inl none_left ↦ (
      _,
      run i {after = waiting} {p = s.permits} {t = s.tracker} e (rw (none_left, run_phase) refl),
    )
    | inr (q, got) ↦ (
      _,
      run i {after = permitted} {p = q} {t = note_acquire false s.tracker} e
          (rw (got, run_phase) refl),
    )
  ]
  ready-CanStep s i waiting e n m = absurd (n refl)
  ready-CanStep s i permitted e n m = (_, run i e refl)
  ready-CanStep s i inside e n m = (_, run i e refl)
  ready-CanStep s i left e n m = (_, run i e refl)
  ready-CanStep s i finished e n m = absurd (m refl)

  waits-CanStep :
      (s : System S) (i : ℕ)
      → get_elem? s.requests i ≡ some waiting
      → 0 < S.available s.permits
      → CanStep s
  unfolding run_phase
  waits-CanStep s i e free = elim (Option-cases (S.try_acquire s.permits)) [
    | inl none_left ↦ absurd (omega (arith, S.refused s.permits none_left))
    | inr (q, got) ↦ (
      _,
      run i {after = permitted} {p = q} {t = note_acquire true s.tracker} e
          (rw (got, run_phase) refl),
    )
  ]

  -- With a semaphore that counts its permits, a cap below `2 ^ 32` and fewer than `2 ^ 64`
  -- requests: however the requests have interleaved, either all are finished or some request can
  -- run, so no request waits for a permit that never comes free.
  pub Reach-progress :
      {cap n : ℕ} {s : System S}
      → cap < 2 ^ 32
      → n < 2 ^ 64
      → Reach S (begin S cap (replicate n fresh)) s
      → All (λ b. b ≡ finished) s.requests ⊎ CanStep s
  Reach-progress {cap} {n} {s} small few r = elim (look s.requests) [
    | ready i b e n m ↦ inr (ready-CanStep s i b e n m)
    | waits i e z ↦
        inr (waits-CanStep s i e (omega (arith, (Reach-Inv S small few r).permits_add_up)))
    | over a z ↦ inl a
  ]
