-- ===== src/Strategic/Knee/Saturated.antt =====
-- The first saturated stage of a sweep, src/strategic.rs.
use bench_cli.Base.{
  ℕ, suc, ◌+◌, ◌≤◌, ◌<◌, ◌≡◌, ◌||◌, Bool-cases, inl, inr, Option, some, List, [], ◌∷◌, ◌++◌, length,
  Float, arith,
}
use bench_cli.Strategic.Knee.{
  KneeLoadAxis, SweepPoint, throughput_saturated, errors_saturated, lower_error_rate,
  saturated_from, first_saturated_stage,
}

module _ (F : Float) (axis : KneeLoadAxis) where
  saturated_from-bounds :
      (index : ℕ) (floor : Option F.F64) (previous : SweepPoint F) (rest : List (SweepPoint F))
      (s : ℕ)
      → saturated_from F axis index floor previous rest ≡ some s
      → (index ≤ s) × (s < index + length rest)
  unfolding saturated_from
  saturated_from-bounds index floor previous [] s h = absurd (cc h)
  saturated_from-bounds index floor previous (point ∷ rest) s h =
      elim (Bool-cases
        (throughput_saturated F axis previous point || errors_saturated F floor point)) [
          | inl e ↦ ground (arith, e, h)
          | inr e ↦ ground (
            arith,
            e,
            h,
            saturated_from-bounds (suc index) (lower_error_rate F floor point.error_rate) point rest
                s,
          )
        ]

  -- A saturated stage is not the first one, and it is a stage of the sweep.
  pub first_saturated_stage-bounds :
      (points : List (SweepPoint F)) (s : ℕ)
      → first_saturated_stage F points axis ≡ some s
      → (1 ≤ s) × (s < length points)
  unfolding first_saturated_stage
  first_saturated_stage-bounds [] s h = absurd (cc h)
  first_saturated_stage-bounds (point ∷ rest) s h =
      omega (arith, saturated_from-bounds 1 point.error_rate point rest s h)

  saturated_from-append :
      (index : ℕ) (floor : Option F.F64) (previous : SweepPoint F)
      (rest later : List (SweepPoint F)) (s : ℕ)
      → saturated_from F axis index floor previous rest ≡ some s
      → saturated_from F axis index floor previous (rest ++ later) ≡ some s
  unfolding saturated_from
  saturated_from-append index floor previous [] later s h = absurd (cc h)
  saturated_from-append index floor previous (point ∷ rest) later s h =
      elim (Bool-cases
        (throughput_saturated F axis previous point || errors_saturated F floor point)) [
          | inl e ↦ ground (arith, e, h)
          | inr e ↦ ground (
            arith,
            e,
            h,
            saturated_from-append (suc index) (lower_error_rate F floor point.error_rate) point rest
                later s,
          )
        ]

  -- A stage that is the first saturated one stays it when the sweep goes on.
  pub first_saturated_stage-append :
      (points later : List (SweepPoint F)) (s : ℕ)
      → first_saturated_stage F points axis ≡ some s
      → first_saturated_stage F (points ++ later) axis ≡ some s
  unfolding first_saturated_stage
  first_saturated_stage-append [] later s h = absurd (cc h)
  first_saturated_stage-append (point ∷ rest) later s h =
      saturated_from-append 1 point.error_rate point rest later s h
