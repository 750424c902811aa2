-- ===== src/Runner/Warmup.antt =====
-- The barrier between the warmup and the measured requests, src/runner.rs.
use bench_cli.Base.{
  ℕ, suc, ◌+◌, ◌-◌, ◌≤◌, ◌<◌, ◌≡◌, refl, sym, ap, ◌∙◌, subst, Bool, true, false, Bool-cases, inl,
  inr, ltb, List, [], ◌∷◌, ◌++◌, map, Option, All, length, total, if◌then◌else◌, ◌==◌, arith,
}
use bench_cli.Arrival.{RequestSlot, IsNumbered, duration_max, saturating_add}
use bench_cli.Concurrency.{InFlightTracker}
use bench_cli.Runner.{
  WarmupBarrier, new_barrier, join_all, shifted, pass_barrier, before_slot, issue, StopFlag,
  is_stopped,
}

-- The slot, due later by so much.
abbrev pub later_by : ℕ → RequestSlot → RequestSlot
later_by d slot = record slot { scheduled_delay = saturating_add slot.scheduled_delay d }

-- A `Duration` that exists.
abbrev pub IsDuration : RequestSlot → Type 0
IsDuration slot = slot.scheduled_delay ≤ duration_max

-- The tasks that did not end well.
abbrev pub failures : List Bool → ℕ
failures = total (λ h. if h then 0 else 1)

shifted_lem : (b : WarmupBarrier) (slot : RequestSlot) → shifted b slot ≡ later_by b.shift slot
unfolding shifted
shifted_lem b slot = refl

later_by_zero : (slot : RequestSlot) → IsDuration slot → later_by 0 slot ≡ slot
later_by_zero slot h = ground (arith, h)

join_errors-join_all :
    (hs : List Bool) (b : WarmupBarrier) → (join_all hs b).join_errors ≡ b.join_errors + failures hs
unfolding join_all
join_errors-join_all [] b = omega arith
join_errors-join_all (true ∷ hs) b = omega (arith, join_errors-join_all hs b)
join_errors-join_all (false ∷ hs) b =
    omega (arith, join_errors-join_all hs (record b { join_errors = b.join_errors + 1 }))

before_slot-elsewhere :
    (slot : RequestSlot) (hs : List Bool) (elapsed : ℕ) (b : WarmupBarrier)
    → (slot.seq == b.warmup_requests) ≡ false
    → before_slot slot hs elapsed b ≡ (later_by b.shift slot, hs, b)
unfolding before_slot shifted
before_slot-elsewhere slot hs elapsed b h = ground (arith, h)

before_slot-barrier :
    (slot : RequestSlot) (hs : List Bool) (elapsed : ℕ) (b : WarmupBarrier)
    → 0 < b.warmup_requests
    → slot.seq ≡ b.warmup_requests
    → before_slot slot hs elapsed b
      ≡ (later_by (elapsed - slot.scheduled_delay) slot, [], pass_barrier slot hs elapsed b)
unfolding before_slot shifted pass_barrier
before_slot-barrier slot hs elapsed b h e = ground (arith, h, e)

-- A slot of the warmup goes out as it is.
before_slot-quiet :
    (slot : RequestSlot) (hs : List Bool) (elapsed : ℕ) (b : WarmupBarrier)
    → (slot.seq == b.warmup_requests) ≡ false
    → b.shift ≡ 0
    → IsDuration slot
    → before_slot slot hs elapsed b ≡ (slot, hs, b)
before_slot-quiet slot hs elapsed b h z d =
    before_slot-elsewhere slot hs elapsed b h
    ∙ ap (λ (s : RequestSlot). (s, hs, b)) (ap (λ n. later_by n slot) z ∙ later_by_zero slot d)

warmup_requests-join_all :
    (hs : List Bool) (b : WarmupBarrier) → (join_all hs b).warmup_requests ≡ b.warmup_requests
unfolding join_all
warmup_requests-join_all [] b = refl
warmup_requests-join_all (true ∷ hs) b = warmup_requests-join_all hs b
warmup_requests-join_all (false ∷ hs) b =
    warmup_requests-join_all hs (record b { join_errors = b.join_errors + 1 })

warmup_requests-pass_barrier :
    (slot : RequestSlot) (hs : List Bool) (elapsed : ℕ) (b : WarmupBarrier)
    → (pass_barrier slot hs elapsed b).warmup_requests ≡ b.warmup_requests
unfolding pass_barrier
warmup_requests-pass_barrier slot hs elapsed b = warmup_requests-join_all hs b

shift-pass_barrier :
    (slot : RequestSlot) (hs : List Bool) (elapsed : ℕ) (b : WarmupBarrier)
    → (pass_barrier slot hs elapsed b).shift ≡ elapsed - slot.scheduled_delay
unfolding pass_barrier
shift-pass_barrier slot hs elapsed b = refl

join_errors-pass_barrier :
    (slot : RequestSlot) (hs : List Bool) (elapsed : ℕ) (b : WarmupBarrier)
    → (pass_barrier slot hs elapsed b).join_errors ≡ b.join_errors + failures hs
unfolding pass_barrier
join_errors-pass_barrier slot hs elapsed b = join_errors-join_all hs b

abbrev put_front : RequestSlot → List RequestSlot × WarmupBarrier → List RequestSlot × WarmupBarrier
put_front s r = (s ∷ r.0, r.1)

-- No slot finds the flag set.
abbrev pub IsQuiet : (ℕ → StopFlag) → Type 0
IsQuiet stop_at = (i : ℕ) → is_stopped (stop_at i) ≡ false

module _ (handles : ℕ → List Bool) (elapsed : ℕ → ℕ) (stop_at : ℕ → StopFlag)
    (quiet : IsQuiet stop_at) where
  issue-cons :
      (slot : RequestSlot) (slots : List RequestSlot) (b : WarmupBarrier) (out : RequestSlot)
      (left : List Bool) (after : WarmupBarrier)
      → before_slot slot (handles slot.seq) (elapsed slot.seq) b ≡ (out, left, after)
      → issue handles elapsed stop_at (slot ∷ slots) b ≡ (
          if ltb 0 after.join_errors
          then ([], after)
          else put_front out (issue handles elapsed stop_at slots after))
  unfolding issue
  issue-cons slot slots b out left after e = rw (quiet slot.seq, e) refl

  -- A slot goes out when no task has failed.
  issue-next :
      (slot : RequestSlot) (slots : List RequestSlot) (b : WarmupBarrier) (out : RequestSlot)
      (left : List Bool) (after : WarmupBarrier)
      → before_slot slot (handles slot.seq) (elapsed slot.seq) b ≡ (out, left, after)
      → after.join_errors ≡ 0
      → issue handles elapsed stop_at (slot ∷ slots) b
        ≡ put_front out (issue handles elapsed stop_at slots after)
  issue-next slot slots b out left after e z = issue-cons slot slots b out left after e ∙ rw z refl

  issue-after :
      (i : ℕ) (slots : List RequestSlot) (b : WarmupBarrier)
      → IsNumbered i slots
      → b.warmup_requests < i
      → b.join_errors ≡ 0
      → issue handles elapsed stop_at slots b ≡ (map (later_by b.shift) slots, b)
  issue-after i [] b n h z = unfold issue in refl
  issue-after i (slot ∷ slots) b n h z =
      issue-next slot slots b _ _ _
        (before_slot-elsewhere slot (handles slot.seq) (elapsed slot.seq) b
          (ground (arith, n.0, h)))
        z
      ∙ ap (put_front (later_by b.shift slot))
          (issue-after (suc i) slots b n.1 (omega (arith, h)) z)

  -- What goes out from the barrier on.
  abbrev pub measured : RequestSlot → List RequestSlot → List RequestSlot
  measured slot rest =
      if ltb 0 (failures (handles slot.seq))
      then []
      else map (later_by (elapsed slot.seq - slot.scheduled_delay)) (slot ∷ rest)

  issue-barrier :
      (slot : RequestSlot) (rest : List RequestSlot) (b : WarmupBarrier)
      → IsNumbered (suc slot.seq) rest
      → 0 < b.warmup_requests
      → slot.seq ≡ b.warmup_requests
      → b.join_errors ≡ 0
      → issue handles elapsed stop_at (slot ∷ rest) b
        ≡ (measured slot rest, pass_barrier slot (handles slot.seq) (elapsed slot.seq) b)
  issue-barrier slot rest b n h e z =
      let hs = handles slot.seq in
      let t = elapsed slot.seq in
      let passed = pass_barrier slot hs t b in
      let errors : passed.join_errors ≡ failures hs =
        omega (arith, join_errors-pass_barrier slot hs t b, z) in
      let step = before_slot-barrier slot hs t b h e in
      let d = t - slot.scheduled_delay in
      elim (Bool-cases (ltb 0 (failures hs))) [
        | inl f ↦
            let failed : ltb 0 passed.join_errors ≡ true = ground (arith, errors, f) in
            issue-cons slot rest b _ _ _ step ∙ rw (failed, f) refl
        | inr f ↦
            let ended : passed.join_errors ≡ 0 = ground (arith, errors, f) in
            issue-next slot rest b _ _ _ step ended
            ∙ ap (put_front (later_by d slot)) (
                issue-after (suc slot.seq) rest passed n
                  (omega (arith, e, warmup_requests-pass_barrier slot hs t b)) ended
                ∙ ap (λ shift. (map (later_by shift) rest, passed))
                    (shift-pass_barrier slot hs t b))
            ∙ rw f refl
      ]

  issue-before :
      (i : ℕ) (pre : List RequestSlot) (slot : RequestSlot) (rest : List RequestSlot)
      (b : WarmupBarrier)
      → IsNumbered i (pre ++ slot ∷ rest)
      → All IsDuration pre
      → 0 < b.warmup_requests
      → i + length pre ≡ b.warmup_requests
      → b.shift ≡ 0
      → b.join_errors ≡ 0
      → issue handles elapsed stop_at (pre ++ slot ∷ rest) b
        ≡ (pre ++ measured slot rest, pass_barrier slot (handles slot.seq) (elapsed slot.seq) b)
  issue-before i [] slot rest b n d h e z k =
      issue-barrier slot rest b (subst (λ k. IsNumbered (suc k) rest) (sym (n.0)) n.1) h
        (omega (arith, n.0, e)) k
  issue-before i (s ∷ pre) slot rest b n d h e z k =
      issue-next s (pre ++ slot ∷ rest) b s _ b
        (before_slot-quiet s (handles s.seq) (elapsed s.seq) b (ground (arith, n.0, e)) z (d.0)) k
      ∙ ap (put_front s) (issue-before (suc i) pre slot rest b n.1 d.1 h (omega (arith, e)) z k)

  -- With a warmup of at least one request, on a schedule numbered from zero whose warmup delays are
  -- durations, and no stop: the slots of the warmup go out as they are; each task of the warmup
  -- that did not end well is counted. If there is one, no later slot goes out; else each is due
  -- later by the same time, what had run at the barrier less the delay of the first of them (zero
  -- if that is more), up to the longest duration.
  pub issue-warmup :
      (pre : List RequestSlot) (slot : RequestSlot) (rest : List RequestSlot)
      (tracker : Option InFlightTracker)
      → IsNumbered 0 (pre ++ slot ∷ rest)
      → All IsDuration pre
      → 0 < length pre
      → (issue handles elapsed stop_at
            (pre ++ slot ∷ rest)
            (record (new_barrier (length pre)) { tracker = tracker })).0
          ≡ pre ++ measured slot rest
        × ((issue handles elapsed stop_at
              (pre ++ slot ∷ rest)
              (record (new_barrier (length pre)) { tracker = tracker })).1.join_errors
            ≡ failures (handles slot.seq))
  issue-warmup pre slot rest tracker n d h =
      let b : WarmupBarrier = record (new_barrier (length pre)) { tracker = tracker } in
      let e = issue-before 0 pre slot rest b n d h (omega arith) refl refl in
      (
        ap (λ (r : List RequestSlot × WarmupBarrier). r.0) e,
        ap (λ (r : List RequestSlot × WarmupBarrier). r.1.join_errors) e
            ∙ join_errors-pass_barrier slot (handles slot.seq) (elapsed slot.seq) b
            ∙ omega arith,
      )
