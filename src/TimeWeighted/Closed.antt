-- ===== src/TimeWeighted/Closed.antt =====
-- The sweep of src/time_weighted.rs ends with nothing open.
use bench_cli.Base.{
  ℕ, suc, ◌+◌, ◌≤◌, ◌≡◌, refl, ap, ◌∙◌, Bool-cases, inl, inr, Option, none, some, List, [], ◌∷◌,
  if◌then◌else◌, Float, arith,
}
use bench_cli.TimeWeighted.{
  Segment, Event, collect, insert, sort, Sweep, is_open, raise, absorb, leave, walk, at_rest, run,
}

module _ (F : Float) where
  -- How many events open a segment, or close one.
  abbrev pub starts : List (Event F) → ℕ
  starts [] = 0
  starts (e ∷ es) = if e.opens then suc (starts es) else starts es

  abbrev pub stops : List (Event F) → ℕ
  stops [] = 0
  stops (e ∷ es) = if e.opens then stops es else suc (stops es)

  -- How many segments overlap the window.
  abbrev pub overlapping : F.F64 → List (Segment F) → ℕ
  overlapping window_s [] = 0
  overlapping window_s (seg ∷ segs) =
      if F.le (F.min seg.stop window_s) (F.max seg.start (F.of_nat 0))
      then overlapping window_s segs
      else suc (overlapping window_s segs)

  collect-balanced :
      (window_s : F.F64) (segs : List (Segment F)) (sum : F.F64)
      → (starts ((collect F window_s sum segs).1) ≡ overlapping window_s segs)
        × (stops ((collect F window_s sum segs).1) ≡ overlapping window_s segs)
  unfolding collect
  collect-balanced window_s [] sum = (refl, refl)
  collect-balanced window_s (seg ∷ segs) sum =
      elim (Bool-cases (F.le (F.min seg.stop window_s) (F.max seg.start (F.of_nat 0)))) [
        | inl e ↦ rw e (collect-balanced window_s segs sum)
        | inr e ↦
            let rest = collect-balanced window_s segs _ in rw e (ap suc (rest.0), ap suc (rest.1))
      ]

  insert-balanced :
      (x : Event F) (es : List (Event F))
      → (starts (insert F x es) ≡ starts (x ∷ es)) × (stops (insert F x es) ≡ stops (x ∷ es))
  unfolding insert
  insert-balanced x [] = (refl, refl)
  insert-balanced x (y ∷ es) = elim (Bool-cases (F.total_gt x.time y.time)) [
    | inl e ↦ rw e (ground (arith, insert-balanced x es))
    | inr e ↦ rw e (refl, refl)
  ]

  sort-balanced :
      (es : List (Event F)) → (starts (sort F es) ≡ starts es) × (stops (sort F es) ≡ stops es)
  unfolding sort
  sort-balanced [] = (refl, refl)
  sort-balanced (e ∷ es) = ground (arith, sort-balanced es, insert-balanced e (sort F es))

  absorb-counts :
      (e : Event F) (s : Sweep F) (m n : ℕ)
      → ((absorb F e s).opened + m ≡ s.opened + (if e.opens then suc m else m))
        × ((absorb F e s).closed + n ≡ s.closed + (if e.opens then n else suc n))
  unfolding absorb
  absorb-counts e s m n = elim (Bool-cases e.opens) [
    | inl h ↦ rw h (omega arith, refl)
    | inr h ↦ rw h (refl, omega arith)
  ]

  leave-counts :
      (t : F.F64) (next : Option F.F64) (s : Sweep F)
      → ((leave F t next s).opened ≡ s.opened) × ((leave F t next s).closed ≡ s.closed)
  unfolding leave
  leave-counts t next s = elim (Bool-cases (is_open F s)) [
    | inl e ↦ rw e (refl, refl)
    | inr e ↦ rw e (refl, refl)
  ]

  -- The variables at the next group of events.
  abbrev group : Event F → F.F64 → Sweep F → Sweep F
  group e t s = raise F e.time (leave F t (some e.time) s)

  group-counts :
      (e : Event F) (t : F.F64) (s : Sweep F)
      → ((group e t s).opened ≡ s.opened) × ((group e t s).closed ≡ s.closed)
  unfolding raise
  group-counts e t s = leave-counts t (some e.time) s

  leave-rest :
      (t : F.F64) (s : Sweep F)
      → s.opened ≤ s.closed
      → ((leave F t none s).a ≡ F.of_nat 0) × ((leave F t none s).b ≡ F.of_nat 0)
  unfolding leave
  leave-rest t s h = elim (Bool-cases (is_open F s)) [
    | inl e ↦ absurd (ground (arith, e, h))
    | inr e ↦ rw e (refl, refl)
  ]

  -- The loop counts each event, and ends at rest when as many segments are closed as opened.
  walk-counts :
      (es : List (Event F)) (t : F.F64) (s : Sweep F)
      → ((walk F t s es).opened ≡ s.opened + starts es)
        × ((walk F t s es).closed ≡ s.closed + stops es)
  unfolding walk absorb raise
  walk-counts [] t s = (omega (arith, leave-counts t none s), omega (arith, leave-counts t none s))
  walk-counts (e ∷ es) t s = elim (Bool-cases (F.eq e.time t)) [
    | inl h ↦ rw h (
      omega (arith, walk-counts es t (absorb F e s), absorb-counts e s (starts es) (stops es)),
      omega (arith, walk-counts es t (absorb F e s), absorb-counts e s (starts es) (stops es)),
    )
    | inr h ↦ rw h (
      omega (
        arith,
        walk-counts es e.time (absorb F e (group e t s)),
        absorb-counts e (group e t s) (starts es) (stops es),
        group-counts e t s,
      ),
      omega (
        arith,
        walk-counts es e.time (absorb F e (group e t s)),
        absorb-counts e (group e t s) (starts es) (stops es),
        group-counts e t s,
      ),
    )
  ]

  walk-rest :
      (es : List (Event F)) (t : F.F64) (s : Sweep F)
      → s.opened + starts es ≤ s.closed + stops es
      → ((walk F t s es).a ≡ F.of_nat 0) × ((walk F t s es).b ≡ F.of_nat 0)
  unfolding walk absorb raise
  walk-rest [] t s h = leave-rest t s (omega (arith, h))
  walk-rest (e ∷ es) t s h = elim (Bool-cases (F.eq e.time t)) [
    | inl g ↦
        rw g (
          walk-rest es t (absorb F e s)
            (omega (arith, h, absorb-counts e s (starts es) (stops es))))
    | inr g ↦ rw g (
        walk-rest es e.time (absorb F e (raise F e.time (leave F t (some e.time) s))) (
          omega
            (arith, h, absorb-counts e (group e t s) (starts es) (stops es), group-counts e t s)))
  ]

  run-balanced :
      (es : List (Event F)) (n : ℕ)
      → starts es ≡ n
      → stops es ≡ n
      → ((run F es).opened ≡ n)
        × ((run F es).closed ≡ n)
        × ((run F es).a ≡ F.of_nat 0)
        × ((run F es).b ≡ F.of_nat 0)
  unfolding run raise
  run-balanced [] n h g = (h, g, refl, refl)
  run-balanced (e ∷ es) n h g =
      let first = raise F e.time (at_rest F) in
      let counts = walk-counts es e.time (absorb F e first) in
      let absorbed = absorb-counts e first (starts es) (stops es) in
      let rest =
        walk-rest es e.time (absorb F e first) (omega (arith, absorbed.0, absorbed.1, h, g)) in
      (
        omega (arith, counts.0, absorbed.0, h),
        omega (arith, counts.1, absorbed.1, g),
        rest.0,
        rest.1,
      )

  -- The sweep opens and closes each segment that overlaps the window once, and ends with the
  -- level at zero.
  pub sweep-closed :
      (segments : List (Segment F)) (window_s : F.F64)
      → let s = run F (sort F ((collect F window_s (F.of_nat 0) segments).1)) in
        (s.opened ≡ overlapping window_s segments)
        × (s.closed ≡ overlapping window_s segments)
        × (s.a ≡ F.of_nat 0)
        × (s.b ≡ F.of_nat 0)
  sweep-closed segments window_s =
      let events = (collect F window_s (F.of_nat 0) segments).1 in
      let balanced = collect-balanced window_s segments (F.of_nat 0) in
      run-balanced (sort F events) (overlapping window_s segments)
        ((sort-balanced events).0 ∙ balanced.0) ((sort-balanced events).1 ∙ balanced.1)
