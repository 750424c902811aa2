-- ===== src/Strategic/Knee.antt =====
-- The knee of a load sweep, src/strategic.rs. Of a sweep point, the fields that are read here. An
-- index or a slice out of bounds, or a subtraction below zero, is a panic and gives `none`.
pub mod Saturated
pub mod Detect
pub mod Positions
pub mod Detection
use bench_cli.Base.{
  ℕ, zero, suc, ◌+◌, ◌-◌, Bool, true, false, not, ◌&&◌, ◌||◌, Option, none, some, and_then,
  map_some, is_some, is_some_and, unwrap_or, first, List, [], ◌∷◌, map, length, get_elem?, ltb, leb,
  ◌==◌, if◌then◌else◌, Float,
}

abbrev pub knee_min_points : ℕ
knee_min_points = 5

-- `KneeLoadAxis`
pub data KneeLoadAxis : Type 0 where
  concurrency rate : KneeLoadAxis

-- `KneeReason`
pub data KneeReason : Type 0 where
  insufficient_points missing_latency flat_curve no_bend : KneeReason

-- `KneeMethod`
pub data KneeMethod : Type 0 where
  by_kneedle by_saturation : KneeMethod

abbrev pub is_concurrency : KneeLoadAxis → Bool
is_concurrency concurrency = true
is_concurrency rate = false

-- The items from one position to another, both included.
unfoldable pub take : {A : Type 0} → ℕ → List A → List A
take zero xs = []
take (suc n) [] = []
take (suc n) (x ∷ xs) = x ∷ take n xs

unfoldable pub drop : {A : Type 0} → ℕ → List A → List A
drop zero xs = xs
drop (suc n) [] = []
drop (suc n) (x ∷ xs) = drop n xs

unfoldable pub slice_to : {A : Type 0} → ℕ → ℕ → List A → Option (List A)
unfolding take drop
slice_to base peak xs =
    if leb base (suc peak) && ltb peak (length xs)
    then some (take (suc peak - base) (drop base xs))
    else none

unfoldable pub last : {A : Type 0} → List A → Option A
last [] = none
last (x ∷ xs) = elim xs [ [] ↦ some x | _ ∷ _ ↦ last xs ]

module _ (F : Float) where
  abbrev pub knee_min_p95_rise : F.F64
  knee_min_p95_rise = F.div (F.of_nat 1) (F.of_nat 5)

  abbrev pub knee_min_marginal_gain : F.F64
  knee_min_marginal_gain = F.div (F.of_nat 1) (F.of_nat 2)

  abbrev pub knee_max_error_rate_rise : F.F64
  knee_max_error_rate_rise = F.div (F.of_nat 1) (F.of_nat 20)

  -- `SweepPoint`
  pub record SweepPoint : Type 0 where
    pub load : F.F64
    pub n : ℕ
    pub throughput : Option F.F64
    pub p95_s : Option F.F64
    pub error_rate : Option F.F64

  -- `KneeDetection`
  pub record KneeDetection : Type 0 where
    pub index : Option ℕ
    pub reason : Option KneeReason
    pub points : ℕ
    pub min_points : ℕ
    pub method : Option KneeMethod
    pub p95_rise : Option F.F64
    pub saturated_index : Option ℕ
    pub min_p95_rise : F.F64
    pub min_marginal_gain : Option F.F64
    pub max_error_rate_rise : F.F64

  -- `KneeDetection::new`
  unfoldable pub new : KneeLoadAxis → ℕ → KneeDetection
  new axis points = record {
    index = none;
    reason = none;
    points = points;
    min_points = knee_min_points;
    method = none;
    p95_rise = none;
    saturated_index = none;
    min_p95_rise = knee_min_p95_rise;
    min_marginal_gain = if is_concurrency axis then some knee_min_marginal_gain else none;
    max_error_rate_rise = knee_max_error_rate_rise;
  }

  -- `KneeDetection::none`
  unfoldable pub without_knee : KneeDetection → KneeReason → KneeDetection
  without_knee d reason = record {
    index = none;
    reason = some reason;
    points = d.points;
    min_points = d.min_points;
    method = none;
    p95_rise = d.p95_rise;
    saturated_index = d.saturated_index;
    min_p95_rise = d.min_p95_rise;
    min_marginal_gain = d.min_marginal_gain;
    max_error_rate_rise = d.max_error_rate_rise;
  }

  -- `KneeDetection::knee`
  unfoldable pub with_knee : KneeDetection → ℕ → KneeMethod → KneeDetection
  with_knee d index method = record {
    index = some index;
    reason = none;
    points = d.points;
    min_points = d.min_points;
    method = some method;
    p95_rise = d.p95_rise;
    saturated_index = d.saturated_index;
    min_p95_rise = d.min_p95_rise;
    min_marginal_gain = d.min_marginal_gain;
    max_error_rate_rise = d.max_error_rate_rise;
  }

  -- The gains of a stage over the one before, when both have a throughput.
  unfoldable pub gains_little : SweepPoint → SweepPoint → Bool
  gains_little previous point = is_some_and previous.throughput (λ previous_rate.
      is_some_and point.throughput (λ achieved.
        F.lt (F.of_nat 0) previous_rate
        && F.lt (F.div (F.sub achieved previous_rate) previous_rate)
            (F.mul knee_min_marginal_gain (F.div (F.sub point.load previous.load) previous.load))))

  unfoldable pub throughput_saturated : KneeLoadAxis → SweepPoint → SweepPoint → Bool
  unfolding gains_little
  throughput_saturated axis previous point =
      let one_wave =
        F.le (F.of_nat previous.n) previous.load && F.le (F.of_nat point.n) point.load in
      is_concurrency axis
      && not one_wave
      && F.lt (F.of_nat 0) previous.load
      && F.lt previous.load point.load
      && gains_little previous point

  unfoldable pub errors_saturated : Option F.F64 → SweepPoint → Bool
  errors_saturated min_error_rate point = is_some_and point.error_rate (λ errors.
      is_some_and min_error_rate (λ floor. F.le knee_max_error_rate_rise (F.sub errors floor)))

  unfoldable pub lower_error_rate : Option F.F64 → Option F.F64 → Option F.F64
  lower_error_rate min_error_rate none = min_error_rate
  lower_error_rate none (some errors) = some errors
  lower_error_rate (some floor) (some errors) = some (F.min floor errors)

  -- The loop of `first_saturated_stage`, from the stage `index` on.
  unfoldable pub saturated_from :
      KneeLoadAxis → ℕ → Option F.F64 → SweepPoint → List SweepPoint → Option ℕ
  unfolding throughput_saturated errors_saturated lower_error_rate
  saturated_from axis index min_error_rate previous [] = none
  saturated_from axis index min_error_rate previous (point ∷ rest) =
      let later =
        saturated_from axis (suc index) (lower_error_rate min_error_rate point.error_rate) point
          rest in
      if throughput_saturated axis previous point || errors_saturated min_error_rate point
      then some index
      else later

  -- `first_saturated_stage`
  unfoldable pub first_saturated_stage : List SweepPoint → KneeLoadAxis → Option ℕ
  unfolding saturated_from
  first_saturated_stage [] axis = none
  first_saturated_stage (point ∷ rest) axis = saturated_from axis 1 point.error_rate point rest
