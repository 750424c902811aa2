-- ===== src/Strategic/Knee/Positions.antt =====
-- The indices and positions of src/strategic.rs, knee detection: each is within its list.
use bench_cli.Base.{
  ℕ, zero, suc, ◌+◌, ◌-◌, ◌≤◌, ◌<◌, ◌≡◌, refl, subst, Bool, true, false, ◌&&◌, Bool-cases,
  Option-cases, inl, inr, Option, none, some, map_some, List, [], ◌∷◌, map, length, get_elem?, All,
  ltb, leb, Float, if◌then◌else◌, arith,
}
use bench_cli.Strategic.Knee.{SweepPoint, take, drop, slice_to}
use bench_cli.Strategic.Knee.Detect.{
  Stage, curve_from, next_low, next_best, rise_from, largest_p95_rise, max_from, max_by, interior,
  kneedle,
}

-- A value that is there satisfies a predicate.
abbrev pub Holds : {A : Type 0} → (A → Type 0) → Option A → Type 0
Holds P none = Unit
Holds P (some a) = P a

module _ {A : Type 0} (P : A → Type 0) where
  pub Holds-if : (b : Bool) (o p : Option A) → Holds P o → Holds P p → Holds P (if b then o else p)
  Holds-if true o p h g = h
  Holds-if false o p h g = g

  pub Holds-map : (Q : A → Type 0) (o : Option A) → ((a : A) → P a → Q a) → Holds P o → Holds Q o
  Holds-map Q none f h = tt
  Holds-map Q (some a) f h = f a h

  pub Holds-some : (o : Option A) (a : A) → o ≡ some a → Holds P o → P a
  Holds-some o a e h = subst (Holds P) e h

  All-take : (n : ℕ) (xs : List A) → All P xs → All P (take n xs)
  unfolding take
  All-take zero xs h = tt
  All-take (suc n) [] h = tt
  All-take (suc n) (x ∷ xs) h = (h.0, All-take n xs h.1)

  All-drop : (n : ℕ) (xs : List A) → All P xs → All P (drop n xs)
  unfolding drop
  All-drop zero xs h = h
  All-drop (suc n) [] h = tt
  All-drop (suc n) (x ∷ xs) h = All-drop n xs h.1

  pub All-get_elem? : (xs : List A) (i : ℕ) → All P xs → Holds P (get_elem? xs i)
  All-get_elem? [] i h = tt
  All-get_elem? (x ∷ xs) zero h = h.0
  All-get_elem? (x ∷ xs) (suc i) h = All-get_elem? xs i h.1

  pub All-slice_to :
      (base peak : ℕ) (xs : List A) → All P xs → Holds (All P) (slice_to base peak xs)
  unfolding slice_to
  All-slice_to base peak xs h = elim (Bool-cases (leb base (suc peak) && ltb peak (length xs))) [
    | inl e ↦ rw e (All-take (suc peak - base) (drop base xs) (All-drop base xs h))
    | inr e ↦ rw e tt
  ]

module _ {A B : Type 0} (Q : B → Type 0) (f : A → B) where
  Holds-map_some : (o : Option A) → Holds (λ a. Q (f a)) o → Holds Q (map_some o f)
  Holds-map_some none h = tt
  Holds-map_some (some a) h = h

  All-map : (xs : List A) → All (λ a. Q (f a)) xs → All Q (map f xs)
  All-map [] h = tt
  All-map (x ∷ xs) h = (h.0, All-map xs h.1)

if-either : {A : Type 0} (P : A → Type 0) (b : Bool) (x y : A) → P x → P y → P (if b then x else y)
if-either P true x y h g = h
if-either P false x y h g = g

pub get_elem?-bounds :
    {A : Type 0} (xs : List A) (i : ℕ) → i < length xs → (a : A) × (get_elem? xs i ≡ some a)
get_elem?-bounds [] i h = absurd (omega (arith, h))
get_elem?-bounds (x ∷ xs) zero h = (x, refl)
get_elem?-bounds (x ∷ xs) (suc i) h = get_elem?-bounds xs i (omega (arith, h))

module _ (F : Float) where
  abbrev pub Within : ℕ → Stage F → Type 0
  Within n stage = stage.0 < n

  pub curve_from-Within :
      (index n : ℕ) (points : List (SweepPoint F))
      → index + length points ≡ n
      → All (Within n) (curve_from F index points)
  unfolding curve_from
  curve_from-Within index n [] e = tt
  curve_from-Within index n (point ∷ rest) e =
      let later = curve_from-Within (suc index) n rest (omega (arith, e)) in
      elim (Option-cases point.throughput) [
        | inl t ↦ rw t later
        | inr (x, t) ↦ rw t (elim (Option-cases point.p95_s) [
          | inl p ↦ rw p later
          | inr (y, p) ↦ rw p (omega (arith, e), later)
        ])
      ]

  -- The positions that `largest_p95_rise` has found so far.
  abbrev IsLow : ℕ → Option (ℕ × F.F64) → Type 0
  IsLow n = Holds (λ (l : ℕ × F.F64). l.0 < n)

  abbrev IsRise : ℕ → Option (ℕ × ℕ × F.F64) → Type 0
  IsRise n = Holds (λ (r : ℕ × ℕ × F.F64). (r.0 ≤ r.1) × (r.1 < n))

  next_low-IsLow :
      (low : Option (ℕ × F.F64)) (n : ℕ) (y : F.F64)
      → IsLow n low
      → IsLow (suc n) (next_low F low n y)
  unfolding next_low
  next_low-IsLow none n y h =
      Holds-if (λ (l : ℕ × F.F64). l.0 < suc n) _ (some (n, y)) none (omega arith) tt
  next_low-IsLow (some l) n y h =
      Holds-if (λ (l : ℕ × F.F64). l.0 < suc n) _ (some (n, y)) (some l) (omega arith)
        (omega (arith, h))

  grown : (n : ℕ) (best : Option (ℕ × ℕ × F.F64)) → IsRise n best → IsRise (suc n) best
  grown n best h =
      Holds-map (λ (r : ℕ × ℕ × F.F64). (r.0 ≤ r.1) × (r.1 < n))
        (λ (r : ℕ × ℕ × F.F64). (r.0 ≤ r.1) × (r.1 < suc n)) best (λ r s. (s.0, omega (arith, s.1)))
        h

  next_best-IsRise :
      (best : Option (ℕ × ℕ × F.F64)) (low : Option (ℕ × F.F64)) (n : ℕ) (y : F.F64)
      → IsRise n best
      → IsLow (suc n) low
      → IsRise (suc n) (next_best F best low n y)
  unfolding next_best
  next_best-IsRise best none n y h g = grown n best h
  next_best-IsRise best (some (l, p)) n y h g =
      Holds-if (λ (r : ℕ × ℕ × F.F64). (r.0 ≤ r.1) × (r.1 < suc n)) _ (some (l, n, _)) best
        ((omega (arith, g), omega arith)) (grown n best h)

  rise_from-IsRise :
      (n : ℕ) (low : Option (ℕ × F.F64)) (best : Option (ℕ × ℕ × F.F64)) (curve : List (Stage F))
      (m : ℕ)
      → n + length curve ≡ m
      → IsLow n low
      → IsRise n best
      → IsRise m (rise_from F n low best curve)
  unfolding rise_from
  rise_from-IsRise n low best [] m e h g = subst (λ k. IsRise k best) (omega (arith, e)) g
  rise_from-IsRise n low best (point ∷ rest) m e h g =
      let lower = next_low-IsLow low n (point.2) h in
      rise_from-IsRise (suc n) _ _ rest m (omega (arith, e)) lower
        (next_best-IsRise best _ n (point.2) g lower)

  -- The baseline of the largest rise is not after its peak, and both are in the curve.
  pub largest_p95_rise-IsRise :
      (curve : List (Stage F))
      → Holds (λ (r : ℕ × ℕ × F.F64). (r.0 ≤ r.1) × (r.1 < length curve)) (largest_p95_rise F curve)
  unfolding largest_p95_rise
  largest_p95_rise-IsRise curve =
      rise_from-IsRise 0 none none curve (length curve) (omega arith) tt tt

  max_from-Holds :
      (P : ℕ × F.F64 → Type 0) (cs : List (ℕ × F.F64)) (best : ℕ × F.F64)
      → P best
      → All P cs
      → P (max_from F best cs)
  unfolding max_from
  max_from-Holds P [] best h g = h
  max_from-Holds P (c ∷ cs) best h g = max_from-Holds P cs _ (if-either P _ best c h (g.0)) (g.1)

  max_by-Holds : (P : ℕ × F.F64 → Type 0) (cs : List (ℕ × F.F64)) → All P cs → Holds P (max_by F cs)
  unfolding max_by
  max_by-Holds P [] h = tt
  max_by-Holds P (c ∷ cs) h = max_from-Holds P cs c (h.0) (h.1)

  pub kneedle-Within :
      (n : ℕ) (curve : List (Stage F)) → All (Within n) curve → Holds (λ i. i < n) (kneedle F curve)
  unfolding kneedle interior
  kneedle-Within n curve h =
      Holds-if (λ i. i < n) (ltb (length curve) 3) none _ tt
        (Holds-if (λ i. i < n) _ none _ tt
          (Holds-map_some (λ i. i < n) (λ (pair : ℕ × F.F64). pair.0) _
            (max_by-Holds (λ (pair : ℕ × F.F64). pair.0 < n) _
              (All-map (λ (pair : ℕ × F.F64). pair.0 < n) _ _
                (All-take (Within n) (length curve - 2) (drop 1 curve)
                  (All-drop (Within n) 1 curve h))))))
