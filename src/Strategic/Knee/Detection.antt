-- ===== src/Strategic/Knee/Detection.antt =====
-- What the knee detection of src/strategic.rs reports.
use bench_cli.Base.{
  ℕ, zero, suc, ◌≤◌, ◌<◌, ◌≡◌, refl, sym, subst, Bool, true, false, not, ◌&&◌, Bool-cases,
  Option-cases, inl, inr, Option, none, some, is_some, map_some, List, length, All, ltb, leb, Float,
  if◌then◌else◌, arith, ◌==◌,
}
use bench_cli.Strategic.Knee.{
  KneeLoadAxis, KneeDetection, SweepPoint, by_saturation, by_kneedle, slice_to,
  first_saturated_stage, new, with_knee, without_knee, knee_min_points, knee_min_p95_rise,
  KneeMethod,
}
use bench_cli.Strategic.Knee.Detect.{
  Stage, curve_from, largest_p95_rise, kneedle, knee_between, bend_knee, stage_before, earlier,
  conclude, measured, measured, detect_knee_on_axis,
}
use bench_cli.Strategic.Knee.Positions.{
  Holds, Holds-some, All-get_elem?, All-slice_to, get_elem?-bounds, Within, curve_from-Within,
  largest_p95_rise-IsRise, kneedle-Within,
}
use bench_cli.Strategic.Knee.Saturated.{first_saturated_stage-bounds}

module _ (F : Float) where
  within : (a b : Bool) → a ≡ true → b ≡ true → (a && b) ≡ true
  within a b h g = ground (arith, h, g)

  slice_to-bounds :
      {A : Type 0} (base peak : ℕ) (xs : List A)
      → base ≤ peak
      → peak < length xs
      → (ys : List A) × (slice_to base peak xs ≡ some ys)
  unfolding slice_to
  slice_to-bounds base peak xs h g =
      rw
        (within (leb base (suc peak)) (ltb peak (length xs)) (ground (arith, h))
          (ground (arith, g)))
        (_, refl)

  abbrev first_of : Option ℕ × Bool → Option ℕ
  first_of pair = pair.0

  knee_between-Within :
      (n : ℕ) (stages : List (Stage F)) (low : Stage F) (is_next : Bool)
      → All (Within F n) stages
      → low.0 < n
      → Holds (λ i. i < n) ((knee_between F stages low is_next).0)
  unfolding knee_between
  knee_between-Within n stages low is_next h g = elim (Option-cases (kneedle F stages)) [
    | inl e ↦
        subst (λ (b : Option ℕ × Bool). Holds (λ i. i < n) (b.0)) (sym (between-none e))
          (before_rise is_next g)
    | inr (i, e) ↦
        subst (λ (b : Option ℕ × Bool). Holds (λ i. i < n) (b.0)) (sym (between-some i e))
          (Holds-some (λ j. j < n) _ i e (kneedle-Within F n stages h))
  ]
    where
      between-none :
          kneedle F stages ≡ none
          → knee_between F stages low is_next
            ≡ (if is_next then (some (low.0), false) else (none, true))
      between-none e = rw (e, knee_between) refl

      between-some :
          (i : ℕ) → kneedle F stages ≡ some i → knee_between F stages low is_next ≡ (some i, false)
      between-some i e = rw (e, knee_between) refl

      before_rise :
          (b : Bool)
          → low.0 < n
          → Holds (λ i. i < n) (first_of (if b then (some (low.0), false) else (none, true)))
      before_rise true g = g
      before_rise false g = tt

  bend_knee-Within :
      (n : ℕ) (curve : List (Stage F))
      → All (Within F n) curve
      → (r : Option (ℕ × ℕ × F.F64))
      → Holds (λ (r : ℕ × ℕ × F.F64). (r.0 ≤ r.1) × (r.1 < length curve)) r
      → (bend : Option ℕ × Bool) × (bend_knee F curve r ≡ some bend) × Holds (λ i. i < n) (bend.0)
  unfolding bend_knee
  bend_knee-Within n curve h none g = ((none, false), refl, tt)
  bend_knee-Within n curve h (some (base, peak, rise)) g =
      let (top, top_at) = get_elem?-bounds curve peak (g.1) in
      let (low, low_at) = get_elem?-bounds curve base (omega (arith, g.0, g.1)) in
      let (part, part_at) = slice_to-bounds base peak curve (g.0) (g.1) in
      let low_within =
        Holds-some (Within F n) _ low low_at (All-get_elem? (Within F n) curve base h) in
      let part_within =
        Holds-some (All (Within F n)) _ part part_at
          (All-slice_to (Within F n) base peak curve h) in
      rw (top_at, low_at, part_at)
        (elim (Bool-cases
          (F.le (F.mul (low.2) (F.add (F.of_nat 1) (knee_min_p95_rise F))) (top.2))) [
            | inl b ↦ rw b (
              knee_between F part low (peak == suc base),
              refl,
              knee_between-Within n part low _ part_within low_within,
            )
            | inr b ↦ rw b ((none, false), refl, tt)
          ])

  -- A knee is before the first saturated stage.
  abbrev pub BeforeSaturated : Option ℕ → Option ℕ → Type 0
  BeforeSaturated index none = Unit
  BeforeSaturated index (some saturated) = (knee : ℕ) × (index ≡ some knee) × (knee < saturated)

  -- What a detection over a sweep of `n` stages says of itself.
  pub record IsDetection (n : ℕ) (d : KneeDetection F) : Type 0 where
    pub reasoned : is_some d.reason ≡ not (is_some d.index)
    pub found_by : is_some d.method ≡ is_some d.index
    pub in_sweep : Holds (λ i. i < n) d.index
    pub saturated_in_sweep : Holds (λ i. i < n) d.saturated_index
    pub before_saturated : BeforeSaturated d.index d.saturated_index

  with_knee-IsDetection :
      (n : ℕ) (d : KneeDetection F) (knee : ℕ) (method : KneeMethod) (saturated : ℕ)
      → d.saturated_index ≡ some saturated
      → saturated < n
      → knee < saturated
      → IsDetection n (with_knee F d knee method)
  unfolding with_knee
  with_knee-IsDetection n d knee method saturated e h g = record {
    reasoned = refl;
    found_by = refl;
    in_sweep = omega (arith, h, g);
    saturated_in_sweep = subst (Holds (λ i. i < n)) (sym e) h;
    before_saturated = subst (BeforeSaturated (some knee)) (sym e) (knee, refl, g);
  }

  conclude-IsDetection :
      (n : ℕ) (d : KneeDetection F) (points : List (SweepPoint F)) (curve : List (Stage F))
      (bend : Option ℕ × Bool) (saturation_knee : Option ℕ)
      → Holds (λ i. i < n) (bend.0)
      → d.saturated_index ≡ map_some saturation_knee (λ i. suc i)
      → Holds (λ i. suc i < n) saturation_knee
      → IsDetection n (conclude F d points curve bend saturation_knee)
  unfolding conclude earlier with_knee without_knee
  conclude-IsDetection n d points curve (none, over) none h e g = record {
    reasoned = refl;
    found_by = refl;
    in_sweep = tt;
    saturated_in_sweep = subst (Holds (λ i. i < n)) (sym e) tt;
    before_saturated = subst (BeforeSaturated none) (sym e) tt;
  }
  conclude-IsDetection n d points curve (some k, over) none h e g = record {
    reasoned = refl;
    found_by = refl;
    in_sweep = h;
    saturated_in_sweep = subst (Holds (λ i. i < n)) (sym e) tt;
    before_saturated = subst (BeforeSaturated (some k)) (sym e) tt;
  }
  conclude-IsDetection n d points curve (none, over) (some s) h e g =
      with_knee-IsDetection n d s by_saturation (suc s) e g (omega arith)
  conclude-IsDetection n d points curve (some k, over) (some s) h e g =
      elim (Bool-cases (ltb s k)) [
        | inl b ↦
            rw (b, conclude, earlier)
              (with_knee-IsDetection n d s by_saturation (suc s) e g (omega arith))
        | inr b ↦
            rw (b, conclude, earlier)
              (with_knee-IsDetection n d k by_kneedle (suc s) e g (ground (arith, b)))
      ]

  stage_before-some :
      (saturated : Option ℕ) (n : ℕ)
      → Holds (λ s. (1 ≤ s) × (s < n)) saturated
      → (knee : Option ℕ) × (stage_before F saturated ≡ some knee)
        × (saturated ≡ map_some knee (λ i. suc i))
        × Holds (λ i. suc i < n) knee
  unfolding stage_before
  stage_before-some none n h = (none, refl, refl, tt)
  stage_before-some (some zero) n h = absurd (omega (arith, h.0))
  stage_before-some (some (suc s)) n h = (some s, refl, refl, h.1)

  saturated-Holds :
      (points : List (SweepPoint F)) (axis : KneeLoadAxis)
      → Holds (λ s. (1 ≤ s) × (s < length points)) (first_saturated_stage F points axis)
  saturated-Holds points axis = elim (Option-cases (first_saturated_stage F points axis)) [
    | inl e ↦ rw (e, Holds) tt
    | inr (s, e) ↦ rw (e, Holds) (first_saturated_stage-bounds F axis points s e)
  ]

  -- The knee detection does not panic. Its result has a reason exactly when it has no knee and a
  -- method exactly when it has one; the knee and the first saturated stage are stages of the
  -- sweep, and when there is a saturated stage there is a knee, before it.
  pub detect_knee_on_axis-IsDetection :
      (points : List (SweepPoint F)) (axis : KneeLoadAxis)
      → (d : KneeDetection F) × (detect_knee_on_axis F points axis ≡ some d)
        × IsDetection (length points) d
  unfolding detect_knee_on_axis without_knee new measured
  detect_knee_on_axis-IsDetection points axis =
      let curve = curve_from F 0 points in
      let (bend, bend_is, bend_in) =
        bend_knee-Within (length points) curve
          (curve_from-Within F 0 (length points) points (omega arith)) (largest_p95_rise F curve)
          (largest_p95_rise-IsRise F curve) in
      let (knee, knee_is, next, knee_in) =
        stage_before-some (first_saturated_stage F points axis) (length points)
          (saturated-Holds points axis) in
      elim (Bool-cases (ltb (length curve) knee_min_points)) [
        | inl few ↦ rw few (
          _,
          refl,
          record {
            reasoned = refl;
            found_by = refl;
            in_sweep = tt;
            saturated_in_sweep = tt;
            before_saturated = tt;
          },
        )
        | inr enough ↦
            rw (enough, knee_is)
              (rw (bend_is) (
                _,
                refl,
                conclude-IsDetection (length points) (measured F axis points curve) points curve
                    bend knee bend_in next knee_in,
              ))
      ]
