-- ===== src/Stats/Defined.antt =====
-- When the statistics of src/stats.rs have a value: no index is out of bounds.
use bench_cli.Base.{
  ℕ, zero, suc, ◌-◌, min, ◌<◌, ◌≡◌, refl, Bool, true, false, ◌&&◌, not, Bool-cases, inl, inr,
  Option, none, some, and_then, map_some, if◌then◌else◌, is_some, first, List, [], ◌∷◌, length,
  get_elem?, ◌==◌, Float, arith,
}
use bench_cli.Text.{is_empty}
use bench_cli.Stats.{between, percentile_type7, sort_finite, mad, from_values, DistSummary, last}

in_list : {A : Type 0} (xs : List A) (i : ℕ) → i < length xs → (a : A) × (get_elem? xs i ≡ some a)
in_list [] i h = absurd (omega (arith, h))
in_list (x ∷ xs) zero h = (x, refl)
in_list (x ∷ xs) (suc i) h = in_list xs i (omega (arith, h))

not_one : (n : ℕ) → (suc (suc n) == 1) ≡ false
not_one n = ground arith

min_below : (a n : ℕ) → min a (suc n - 1) < suc n
min_below a n = omega arith

-- The code returns.
abbrev pub Defined : {A : Type 0} → Option A → Type 0
Defined {A} o = (a : A) × (o ≡ some a)

module _ {A B : Type 0} where
  pub and_then-Defined :
      (o : Option A) (f : A → Option B)
      → Defined o
      → ((a : A) → Defined (f a))
      → Defined (and_then o f)
  and_then-Defined none f d g = cc (d.1)
  and_then-Defined (some a) f d g = g a

  pub map_some-Defined : (o : Option A) (f : A → B) → Defined o → Defined (map_some o f)
  map_some-Defined none f d = cc (d.1)
  map_some-Defined (some a) f d = (f a, refl)

elim-Defined :
    {A B : Type 0} (o : Option A) (p : Option B) (f : A → Option B)
    → Defined p
    → ((a : A) → Defined (f a))
    → Defined (elim o [ none ↦ p | some a ↦ f a ])
elim-Defined none p f d g = d
elim-Defined (some a) p f d g = g a

pub if-Defined :
    {A : Type 0} (b : Bool) (o p : Option A)
    → (b ≡ true → Defined o)
    → (b ≡ false → Defined p)
    → Defined (if b then o else p)
if-Defined true o p h g = h refl
if-Defined false o p h g = g refl

is_some-map :
    {A : Type 0} (o : Option A)
    → Defined o
    → (v : Option A) × (map_some o some ≡ some v) × (is_some v ≡ true)
is_some-map none d = cc (d.1)
is_some-map (some a) d = (some a, refl, refl)

module _ (F : Float) where
  between-some :
      (sorted : List F.F64) (h : F.F64) (lo hi : ℕ)
      → lo < length sorted
      → hi < length sorted
      → (v : F.F64) × (between F sorted h lo hi ≡ some v)
  unfolding between
  between-some sorted h lo hi l g =
      let (a, a_at) = in_list sorted lo l in
      let (b, b_at) = in_list sorted hi g in
      rw (a_at, b_at)
        (elim (Bool-cases (lo == hi)) [ inl e ↦ rw e (_, refl) | inr e ↦ rw e (_, refl) ])

  -- A percentile never reads out of bounds, and is a value exactly when there are values and the
  -- percentage is finite.
  pub percentile_type7-some :
      (sorted : List F.F64) (p : F.F64)
      → (v : Option F.F64) × (percentile_type7 F sorted p ≡ some v)
        × (is_some v ≡ (not (is_empty sorted) && F.is_finite p))
  unfolding percentile_type7 is_empty
  percentile_type7-some [] p = (none, refl, refl)
  percentile_type7-some (x ∷ []) p = elim (Bool-cases (F.is_finite p)) [
    | inl e ↦ rw (e, percentile_type7) (_, refl, refl)
    | inr e ↦ rw (e, percentile_type7) (_, refl, refl)
  ]
  percentile_type7-some (x ∷ y ∷ xs) p = elim (Bool-cases (F.is_finite p)) [
    | inl e ↦
        rw (e, percentile_type7)
          (rw (not_one (length xs))
            (is_some-map _ (between-some (x ∷ y ∷ xs) _ _ _ (min_below _ _) (min_below _ _))))
    | inr e ↦ rw (e, percentile_type7) (_, refl, refl)
  ]

  percentile_type7-Defined :
      (sorted : List F.F64) (p : F.F64) → Defined (percentile_type7 F sorted p)
  percentile_type7-Defined sorted p = let (v, e, _) = percentile_type7-some sorted p in (v, e)

  mad-Defined : (values : List F.F64) → Defined (mad F values)
  unfolding mad
  mad-Defined values =
      if-Defined (is_empty values) _ _ (λ _. (none, refl))
        (λ _.
          and_then-Defined _ _ (percentile_type7-Defined _ _)
            (λ center. elim-Defined center _ _ (none, refl) (λ _. percentile_type7-Defined _ _)))

  -- A summary is there, with these ends.
  pub from_values-kept :
      (values : List F.F64)
      → (d : DistSummary F) × (from_values F values ≡ some d)
        × (d.n ≡ length (sort_finite F values))
        × (d.least ≡ first (sort_finite F values))
        × (d.greatest ≡ last (sort_finite F values))
  unfolding from_values
  from_values-kept values =
      let sorted = sort_finite F values in
      let (deviation, e) = mad-Defined sorted in
      let (p50, e50) = percentile_type7-Defined sorted (F.of_nat 50) in
      let (p90, e90) = percentile_type7-Defined sorted (F.of_nat 90) in
      let (p95, e95) = percentile_type7-Defined sorted (F.of_nat 95) in
      let (p99, e99) = percentile_type7-Defined sorted (F.of_nat 99) in
      rw (e, e50, e90, e95, e99) (_, refl, refl, refl, refl)
