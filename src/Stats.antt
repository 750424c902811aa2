-- ===== src/Stats.antt =====
-- Distributions of measured values, src/stats.rs. The random generator behind the bootstrap is a
-- parameter; an index out of bounds is a panic and gives `none`.
pub mod Sorted
pub mod Defined
use bench_cli.Base.{
  ℕ, zero, suc, ◌+◌, ◌-◌, min, Bool, true, false, ◌||◌, not, Option, none, some, and_then, map_some,
  first, List, [], ◌∷◌, map, length, get_elem?, ltb, ◌==◌, if◌then◌else◌, Float,
}
use bench_cli.Text.{is_empty}

-- `rand::rngs::StdRng`
pub record Random : Type 1 where
  pub StdRng : Type 0
  pub seed_from_u64 : ℕ → StdRng
  pub random_range : StdRng → ℕ → ℕ × StdRng

unfoldable pub last : {A : Type 0} → List A → Option A
last [] = none
last (x ∷ xs) = elim xs [ [] ↦ some x | _ ∷ _ ↦ last xs ]

module _ (F : Float) where
  abbrev pub nat : ℕ → F.F64
  nat = F.of_nat

  -- `f64::clamp(0.0, upper)`
  unfoldable pub clamp : F.F64 → F.F64 → F.F64
  clamp p upper =
      let raised = if F.lt p (nat 0) then nat 0 else p in
      if F.lt upper raised then upper else raised

  -- The interpolation, when the indices are known.
  unfoldable pub between : List F.F64 → F.F64 → ℕ → ℕ → Option F.F64
  between sorted h lo hi =
      let weight = F.sub h (nat lo) in
      if lo == hi
      then get_elem? sorted lo
      else and_then (get_elem? sorted lo) (λ a.
        map_some (get_elem? sorted hi)
          (λ b. F.add (F.mul a (F.sub (nat 1) weight)) (F.mul b weight)))

  -- `percentile_type7`: its result, unless an index is out of bounds.
  unfoldable pub percentile_type7 : List F.F64 → F.F64 → Option (Option F.F64)
  unfolding clamp between
  percentile_type7 sorted p =
      let n = length sorted in
      let h = F.mul (F.sub (nat n) (nat 1)) (F.div (clamp p (nat 100)) (nat 100)) in
      let interpolated =
        between sorted h (min (F.to_u64 (F.floor h)) (n - 1)) (min (F.to_u64 (F.ceil h)) (n - 1)) in
      if is_empty sorted || not (F.is_finite p)
      then some none
      else if n == 1
      then map_some (get_elem? sorted 0) some
      else map_some interpolated some

  -- `percentile_unreliable`
  unfoldable pub percentile_unreliable : ℕ → F.F64 → Bool
  percentile_unreliable n p =
      n == 0 || F.lt (F.mul (nat n) (F.sub (nat 1) (F.div p (nat 100)))) (nat 1)

  unfoldable pub sum_from : F.F64 → List F.F64 → F.F64
  sum_from acc [] = acc
  sum_from acc (v ∷ vs) = sum_from (F.add acc v) vs

  abbrev pub sum : List F.F64 → F.F64
  sum = sum_from (nat 0)

  -- `mean`
  unfoldable pub mean : List F.F64 → Option F.F64
  unfolding sum_from
  mean values = if is_empty values then none else some (F.div (sum values) (nat (length values)))

  -- `std_sample`
  unfoldable pub std_sample : List F.F64 → Option F.F64
  unfolding mean
  std_sample values =
      let std = map_some (mean values) (λ m.
        let squares = map (λ x. F.mul (F.sub x m) (F.sub x m)) values in
        F.sqrt (F.div (sum squares) (nat (length values - 1)))) in
      if ltb (length values) 2 then none else std

  -- `sort_by` is stable: a value goes before the first that is not less.
  unfoldable pub insert : F.F64 → List F.F64 → List F.F64
  insert x [] = x ∷ []
  insert x (y ∷ ys) = let rest = insert x ys in if F.lt y x then y ∷ rest else x ∷ y ∷ ys

  unfoldable pub sort : List F.F64 → List F.F64
  unfolding insert
  sort [] = []
  sort (x ∷ xs) = insert x (sort xs)

  -- `mad`
  unfoldable pub mad : List F.F64 → Option (Option F.F64)
  unfolding percentile_type7 sort
  mad values =
      let sorted = sort values in
      let spread = and_then (percentile_type7 sorted (nat 50)) (λ center. elim center [
        | none ↦ some none
        | some med ↦ percentile_type7 (sort (map (λ x. F.abs (F.sub x med)) sorted)) (nat 50)
      ]) in
      if is_empty values then some none else spread

  unfoldable pub finite : List F.F64 → List F.F64
  finite [] = []
  finite (x ∷ xs) = let rest = finite xs in if F.is_finite x then x ∷ rest else rest

  -- `sort_finite`
  unfoldable pub sort_finite : List F.F64 → List F.F64
  unfolding finite sort
  sort_finite values = sort (finite values)

  -- `DistSummary`
  pub record DistSummary : Type 0 where
    pub n : ℕ
    pub least : Option F.F64
    pub greatest : Option F.F64
    pub avg : Option F.F64
    pub std : Option F.F64
    pub deviation : Option F.F64
    pub p50 : Option F.F64
    pub p90 : Option F.F64
    pub p95 : Option F.F64
    pub p99 : Option F.F64
    pub p90_unreliable : Bool
    pub p95_unreliable : Bool
    pub p99_unreliable : Bool

  -- `DistSummary::from_values`
  unfoldable pub from_values : List F.F64 → Option DistSummary
  unfolding sort_finite last mean std_sample mad percentile_type7 percentile_unreliable
  from_values values =
      let sorted = sort_finite values in
      let n = length sorted in
      and_then (mad sorted) (λ deviation. and_then (percentile_type7 sorted (nat 50)) (λ p50.
        and_then (percentile_type7 sorted (nat 90)) (λ p90.
          and_then (percentile_type7 sorted (nat 95)) (λ p95.
            map_some (percentile_type7 sorted (nat 99)) (λ p99. record {
              n = n;
              least = first sorted;
              greatest = last sorted;
              avg = mean sorted;
              std = std_sample sorted;
              deviation = deviation;
              p50 = p50;
              p90 = p90;
              p95 = p95;
              p99 = p99;
              p90_unreliable = percentile_unreliable n (nat 90);
              p95_unreliable = percentile_unreliable n (nat 95);
              p99_unreliable = percentile_unreliable n (nat 99);
            })))))

  -- `ConfidenceInterval`
  pub record ConfidenceInterval : Type 0 where
    pub level : F.F64
    pub low : Option F.F64
    pub high : Option F.F64
    pub resamples : ℕ

  module _ (R : Random) where
    -- The values of one resample, `left` still to be drawn, and the generator after it.
    unfoldable pub resample : List F.F64 → ℕ → R.StdRng → Option (List F.F64 × R.StdRng)
    resample values zero rng = some ([], rng)
    resample values (suc left) rng =
        let (i, next) = R.random_range rng (length values) in
        let others = resample values left next in
        and_then (get_elem? values i)
          (λ v. map_some others (λ (drawn : List F.F64 × R.StdRng). (v ∷ drawn.0, drawn.1)))

    unfoldable pub resample_means : List F.F64 → ℕ → R.StdRng → Option (List F.F64)
    unfolding resample sum_from
    resample_means values zero rng = some []
    resample_means values (suc left) rng =
        and_then (resample values (length values) rng) (λ (drawn : List F.F64 × R.StdRng).
          map_some (resample_means values left (drawn.1))
            (λ means. F.div (sum (drawn.0)) (nat (length values)) ∷ means))

    -- `total_cmp`
    unfoldable pub insert_total : F.F64 → List F.F64 → List F.F64
    insert_total x [] = x ∷ []
    insert_total x (y ∷ ys) =
        let rest = insert_total x ys in if F.total_gt x y then y ∷ rest else x ∷ y ∷ ys

    unfoldable pub sort_total : List F.F64 → List F.F64
    unfolding insert_total
    sort_total [] = []
    sort_total (x ∷ xs) = insert_total x (sort_total xs)

    -- `bootstrap_mean_ci`
    unfoldable pub bootstrap_mean_ci : List F.F64 → F.F64 → ℕ → ℕ → Option ConfidenceInterval
    unfolding sort_finite resample_means sort_total percentile_type7 clamp
    bootstrap_mean_ci values level resamples seed =
        let sorted = sort_finite values in
        let alpha = F.mul (F.div (F.sub (nat 1) (clamp level (nat 1))) (nat 2)) (nat 100) in
        let interval = and_then (resample_means sorted resamples (R.seed_from_u64 seed)) (λ means.
          and_then (percentile_type7 (sort_total means) alpha) (λ low.
            map_some (percentile_type7 (sort_total means) (F.sub (nat 100) alpha))
              (λ high. record { level = level; low = low; high = high; resamples = resamples }))) in
        if is_empty sorted || resamples == 0
        then some (record { level = level; low = none; high = none; resamples = resamples })
        else interval
