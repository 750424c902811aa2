-- ===== src/Strategic/Knee/Detect.antt =====
-- Kneedle and the detection of a knee, src/strategic.rs, over the measured stages of a sweep.
use bench_cli.Base.{
  ℕ, zero, suc, ◌-◌, Bool, true, false, ◌&&◌, ◌||◌, Option, none, some, and_then, map_some, is_some,
  is_some_and, is_none_or, first, List, [], ◌∷◌, map, length, get_elem?, ltb, ◌==◌, if◌then◌else◌,
  Float,
}
use bench_cli.Strategic.Knee.{
  KneeLoadAxis, concurrency, KneeReason, insufficient_points, missing_latency, flat_curve, no_bend,
  KneeMethod, by_kneedle, by_saturation, SweepPoint, KneeDetection, new, without_knee, with_knee,
  first_saturated_stage, take, drop, slice_to, last, knee_min_points, knee_min_p95_rise,
}

module _ (F : Float) where
  -- A measured stage: its index, its throughput and its p95 latency.
  abbrev pub Stage : Type 0
  Stage = ℕ × F.F64 × F.F64

  unfoldable pub curve_from : ℕ → List (SweepPoint F) → List Stage
  curve_from index [] = []
  curve_from index (point ∷ rest) =
      let later = curve_from (suc index) rest in
      elim point.throughput [
        | none ↦ later
        | some x ↦ elim point.p95_s [ none ↦ later | some y ↦ (index, x, y) ∷ later ]
      ]

  -- `low` is a position with its p95 latency, `curve[low].2`.
  unfoldable pub next_low : Option (ℕ × F.F64) → ℕ → F.F64 → Option (ℕ × F.F64)
  next_low low position p95 =
      if F.lt (F.of_nat 0) p95 && is_none_or low (λ (l : ℕ × F.F64). F.lt p95 (l.1))
      then some (position, p95)
      else low

  unfoldable pub next_best :
      Option (ℕ × ℕ × F.F64) → Option (ℕ × F.F64) → ℕ → F.F64 → Option (ℕ × ℕ × F.F64)
  next_best best none position p95 = best
  next_best best (some (low, low_p95)) position p95 =
      let rise = F.sub (F.div p95 low_p95) (F.of_nat 1) in
      if is_none_or best (λ (b : ℕ × ℕ × F.F64). F.lt (b.2) rise)
      then some (low, position, rise)
      else best

  -- The loop of `largest_p95_rise`.
  unfoldable pub rise_from :
      ℕ → Option (ℕ × F.F64) → Option (ℕ × ℕ × F.F64) → List Stage → Option (ℕ × ℕ × F.F64)
  unfolding next_low next_best
  rise_from position low best [] = best
  rise_from position low best (point ∷ rest) =
      let here = next_low low position (point.2) in
      rise_from (suc position) here (next_best best here position (point.2)) rest

  -- `largest_p95_rise`
  unfoldable pub largest_p95_rise : List Stage → Option (ℕ × ℕ × F.F64)
  unfolding rise_from
  largest_p95_rise = rise_from 0 none none

  -- The least and the greatest of some values, `fold((INFINITY, NEG_INFINITY), ..)`.
  unfoldable pub range_from : F.F64 → F.F64 → List F.F64 → F.F64 × F.F64
  range_from lo hi [] = (lo, hi)
  range_from lo hi (v ∷ vs) = range_from (F.min lo v) (F.max hi v) vs

  -- `flat`, which `kneedle` tests as well.
  unfoldable pub flat : List F.F64 → Bool
  unfolding range_from
  flat values =
      let (lo, hi) = range_from F.infinity F.neg_infinity values in F.le (F.sub hi lo) F.epsilon

  -- A value within the range of some values.
  unfoldable pub normalize : List F.F64 → F.F64 → F.F64
  unfolding range_from
  normalize values v =
      let (lo, hi) = range_from F.infinity F.neg_infinity values in F.div (F.sub v lo) (F.sub hi lo)

  -- `max_by` with `total_cmp`: the last of the greatest.
  unfoldable pub max_from : ℕ × F.F64 → List (ℕ × F.F64) → ℕ × F.F64
  max_from best [] = best
  max_from best (c ∷ cs) = max_from (if F.total_gt (best.1) (c.1) then best else c) cs

  unfoldable pub max_by : List (ℕ × F.F64) → Option (ℕ × F.F64)
  unfolding max_from
  max_by [] = none
  max_by (c ∷ cs) = some (max_from c cs)

  abbrev pub throughputs : List Stage → List F.F64
  throughputs curve = map (λ (stage : Stage). stage.1) curve

  abbrev pub latencies : List Stage → List F.F64
  latencies curve = map (λ (stage : Stage). stage.2) curve

  -- `curve[1..curve.len() - 1]`, of at least three stages.
  unfoldable pub interior : List Stage → List Stage
  unfolding take drop
  interior curve = take (length curve - 2) (drop 1 curve)

  -- `kneedle`
  unfoldable pub kneedle : List Stage → Option ℕ
  unfolding flat normalize max_by interior
  kneedle curve =
      let distance : Stage → ℕ × F.F64 = λ (stage : Stage). (
        stage.0,
        F.abs (
            F.sub (normalize (latencies curve) (stage.2))
              (normalize (throughputs curve) (stage.1))),
      ) in
      let farthest =
        map_some (max_by (map distance (interior curve))) (λ (pair : ℕ × F.F64). pair.0) in
      if ltb (length curve) 3
      then none
      else if flat (throughputs curve) || flat (latencies curve)
      then none
      else farthest

  -- The knee between the baseline and the peak, and whether there is a bend without one.
  unfoldable pub knee_between : List Stage → Stage → Bool → Option ℕ × Bool
  unfolding kneedle
  knee_between stages low is_next =
      let before_rise = if is_next then (some (low.0), false) else (none, true) in
      elim (kneedle stages) [ some index ↦ (some index, false) | none ↦ before_rise ]

  -- The knee of a p95 bend, and whether p95 bends over flat throughput.
  unfoldable pub bend_knee : List Stage → Option (ℕ × ℕ × F.F64) → Option (Option ℕ × Bool)
  unfolding knee_between slice_to
  bend_knee curve none = some (none, false)
  bend_knee curve (some (base, peak, rise)) = and_then (get_elem? curve peak) (λ (top : Stage).
      and_then (get_elem? curve base) (λ (low : Stage).
        let bends = F.le (F.mul (low.2) (F.add (F.of_nat 1) (knee_min_p95_rise F))) (top.2) in
        let bend =
          map_some (slice_to base peak curve)
            (λ stages. knee_between stages low (peak == suc base)) in
        if bends then bend else some (none, false)))

  -- `index - 1`
  unfoldable pub stage_before : Option ℕ → Option (Option ℕ)
  stage_before none = some none
  stage_before (some zero) = none
  stage_before (some (suc index)) = some (some index)

  -- The earlier of the two knees.
  unfoldable pub earlier : Option ℕ → Option ℕ → Option (ℕ × KneeMethod)
  earlier (some k) (some s) = if ltb s k then some (s, by_saturation) else some (k, by_kneedle)
  earlier (some k) none = some (k, by_kneedle)
  earlier none (some s) = some (s, by_saturation)
  earlier none none = none

  abbrev has_latency : Option (SweepPoint F) → Bool
  has_latency point = is_some_and point (λ (p : SweepPoint F). is_some p.p95_s)

  -- Why no knee was found.
  unfoldable pub reason_of : List (SweepPoint F) → List Stage → Bool → KneeReason
  unfolding flat last
  reason_of points curve bend_over_flat_throughput =
      let bent =
        if bend_over_flat_throughput || flat (throughputs curve) || flat (latencies curve)
        then flat_curve
        else no_bend in
      if has_latency (first points) && has_latency (last points) then bent else missing_latency

  -- The end of `detect_knee_on_axis`, from the two knees.
  unfoldable pub conclude :
      KneeDetection F
      → List (SweepPoint F)
      → List Stage
      → Option ℕ × Bool
      → Option ℕ
      → KneeDetection F
  unfolding with_knee without_knee earlier reason_of
  conclude detection points curve bend saturation_knee = elim (earlier (bend.0) saturation_knee) [
    | some knee ↦ with_knee F detection (knee.0) (knee.1)
    | none ↦ without_knee F detection (reason_of points curve (bend.1))
  ]

  -- The detection when the saturated stage and the largest rise are known.
  unfoldable pub measured : KneeLoadAxis → List (SweepPoint F) → List Stage → KneeDetection F
  unfolding new first_saturated_stage largest_p95_rise
  measured axis points curve =
      let blank = new F axis (length curve) in
      record {
        index = blank.index;
        reason = blank.reason;
        points = blank.points;
        min_points = blank.min_points;
        method = blank.method;
        p95_rise = map_some (largest_p95_rise curve) (λ (r : ℕ × ℕ × F.F64). r.2);
        saturated_index = first_saturated_stage F points axis;
        min_p95_rise = blank.min_p95_rise;
        min_marginal_gain = blank.min_marginal_gain;
        max_error_rate_rise = blank.max_error_rate_rise;
      }

  -- `detect_knee_on_axis`
  unfoldable pub detect_knee_on_axis : List (SweepPoint F) → KneeLoadAxis → Option (KneeDetection F)
  unfolding new without_knee measured first_saturated_stage curve_from largest_p95_rise bend_knee
      stage_before conclude
  detect_knee_on_axis points axis =
      let curve = curve_from 0 points in
      let found = and_then (stage_before (first_saturated_stage F points axis)) (λ saturation_knee.
        map_some (bend_knee curve (largest_p95_rise curve))
          (λ bend. conclude (measured axis points curve) points curve bend saturation_knee)) in
      if ltb (length curve) knee_min_points
      then some (without_knee F (new F axis (length curve)) insufficient_points)
      else found

  -- `detect_knee_with_reason`
  unfoldable pub detect_knee_with_reason : List (SweepPoint F) → Option (KneeDetection F)
  unfolding detect_knee_on_axis
  detect_knee_with_reason points = detect_knee_on_axis points concurrency

  -- `detect_knee`
  unfoldable pub detect_knee : List (SweepPoint F) → Option (Option ℕ)
  unfolding detect_knee_with_reason
  detect_knee points = map_some (detect_knee_with_reason points) (λ (d : KneeDetection F). d.index)
