-- ===== src/Stats/Sorted.antt =====
-- The order of a summary of src/stats.rs: what `sort_finite` sorts, and the least and the greatest value.
use bench_cli.Base.{
  suc, ◌≡◌, refl, ap, ◌∙◌, true, false, Bool-cases, inl, inr, some, first, List, [], ◌∷◌, length,
  Float, All,
}
use bench_cli.Stats.Defined.{from_values-kept}
use bench_cli.Stats.{insert, sort, finite, sort_finite, last, from_values, DistSummary}

module _ (F : Float) where
  -- A value between the least and the greatest of a summary.
  abbrev pub IsCovered : DistSummary F → F.F64 → Type 0
  IsCovered d v =
      (lo : F.F64) × (hi : F.F64) × (d.least ≡ some lo)
      × (d.greatest ≡ some hi)
      × (F.le lo v ≡ true)
      × (F.le v hi ≡ true)

-- What holds of the comparisons of finite values.
module _ (F : Float) (lt_le : (a b : F.F64) → F.lt a b ≡ true → F.le a b ≡ true)
    (not_lt_le : (a b : F.F64)
      → F.is_finite a ≡ true
      → F.is_finite b ≡ true
      → F.lt a b ≡ false
      → F.le b a ≡ true)
    (le_trans : (a b c : F.F64) → F.le a b ≡ true → F.le b c ≡ true → F.le a c ≡ true) where
  abbrev IsFinite : F.F64 → Type 0
  IsFinite x = F.is_finite x ≡ true

  -- Each value is at most all later ones.
  abbrev Ascending : List F.F64 → Type 0
  Ascending [] = Unit
  Ascending (x ∷ xs) = All (λ y. F.le x y ≡ true) xs × Ascending xs

  All-insert :
      (P : F.F64 → Type 0) (x : F.F64) (ys : List F.F64) → P x → All P ys → All P (insert F x ys)
  unfolding insert
  All-insert P x [] h g = (h, tt)
  All-insert P x (y ∷ ys) h g = elim (Bool-cases (F.lt y x)) [
    | inl e ↦ rw e (g.0, All-insert P x ys h g.1)
    | inr e ↦ rw e (h, g)
  ]

  All-sort : (P : F.F64 → Type 0) (xs : List F.F64) → All P xs → All P (sort F xs)
  unfolding sort
  All-sort P [] h = tt
  All-sort P (x ∷ xs) h = All-insert P x (sort F xs) (h.0) (All-sort P xs h.1)

  All-le :
      (x y : F.F64) (ys : List F.F64)
      → F.le x y ≡ true
      → All (λ z. F.le y z ≡ true) ys
      → All (λ z. F.le x z ≡ true) ys
  All-le x y [] h g = tt
  All-le x y (z ∷ ys) h g = (le_trans x y z h (g.0), All-le x y ys h g.1)

  Ascending-insert :
      (x : F.F64) (ys : List F.F64)
      → IsFinite x
      → All IsFinite ys
      → Ascending ys
      → Ascending (insert F x ys)
  unfolding insert
  Ascending-insert x [] h g a = (tt, tt)
  Ascending-insert x (y ∷ ys) h g a = elim (Bool-cases (F.lt y x)) [
    | inl e ↦ rw e (
      All-insert (λ z. F.le y z ≡ true) x ys (lt_le y x e) (a.0),
      Ascending-insert x ys h g.1 a.1,
    )
    | inr e ↦ let le = not_lt_le y x (g.0) h e in rw e ((le, All-le x y ys le (a.0)), a)
  ]

  finite-IsFinite : (xs : List F.F64) → All IsFinite (finite F xs)
  unfolding finite
  finite-IsFinite [] = tt
  finite-IsFinite (x ∷ xs) = elim (Bool-cases (F.is_finite x)) [
    | inl e ↦ rw e (e, finite-IsFinite xs)
    | inr e ↦ rw e (finite-IsFinite xs)
  ]

  Ascending-sort : (xs : List F.F64) → All IsFinite xs → Ascending (sort F xs)
  unfolding sort
  Ascending-sort [] h = tt
  Ascending-sort (x ∷ xs) h =
      Ascending-insert x (sort F xs) (h.0) (All-sort IsFinite xs h.1) (Ascending-sort xs h.1)

  All-insert-inverse :
      (P : F.F64 → Type 0) (x : F.F64) (ys : List F.F64) → All P (insert F x ys) → P x × All P ys
  unfolding insert
  All-insert-inverse P x [] h = h
  All-insert-inverse P x (y ∷ ys) h = elim (Bool-cases (F.lt y x)) [
    | inl e ↦
        let k : All P (y ∷ insert F x ys) = rw e at h in
        let (here, rest) = All-insert-inverse P x ys (k.1) in (here, (k.0, rest))
    | inr e ↦ let k : All P (x ∷ y ∷ ys) = rw e at h in (k.0, k.1)
  ]

  All-sort-inverse : (P : F.F64 → Type 0) (xs : List F.F64) → All P (sort F xs) → All P xs
  unfolding sort
  All-sort-inverse P [] h = tt
  All-sort-inverse P (x ∷ xs) h =
      let (here, rest) = All-insert-inverse P x (sort F xs) h in (here, All-sort-inverse P xs rest)

  length-insert : (x : F.F64) (ys : List F.F64) → length (insert F x ys) ≡ suc (length ys)
  unfolding insert
  length-insert x [] = refl
  length-insert x (y ∷ ys) = elim (Bool-cases (F.lt y x)) [
    | inl e ↦ rw e (ap suc (length-insert x ys))
    | inr e ↦ rw e refl
  ]

  length-sort : (xs : List F.F64) → length (sort F xs) ≡ length xs
  unfolding sort
  length-sort [] = refl
  length-sort (x ∷ xs) = length-insert x (sort F xs) ∙ ap suc (length-sort xs)

  le_refl : (x : F.F64) → IsFinite x → F.le x x ≡ true
  le_refl x h = elim (Bool-cases (F.lt x x)) [ inl e ↦ lt_le x x e | inr e ↦ not_lt_le x x h h e ]

  last-bound :
      (x : F.F64) (xs : List F.F64)
      → All IsFinite (x ∷ xs)
      → Ascending (x ∷ xs)
      → (hi : F.F64) × (last (x ∷ xs) ≡ some hi) × All (λ v. F.le v hi ≡ true) (x ∷ xs)
  unfolding last
  last-bound x [] h a = (x, refl, (le_refl x (h.0), tt))
  last-bound x (y ∷ xs) h a =
      let (hi, e, bound) = last-bound y xs h.1 a.1 in
      (hi, e, (le_trans x y hi (a.0.0) (bound.0), bound))

  covered :
      (d : DistSummary F) (lo hi : F.F64) (vs : List F.F64)
      → d.least ≡ some lo
      → d.greatest ≡ some hi
      → All (λ v. F.le lo v ≡ true) vs
      → All (λ v. F.le v hi ≡ true) vs
      → All (IsCovered F d) vs
  covered d lo hi [] l g a b = tt
  covered d lo hi (v ∷ vs) l g a b = ((lo, hi, l, g, a.0, b.0), covered d lo hi vs l g a.1 b.1)

  sorted-IsCovered :
      (d : DistSummary F) (xs : List F.F64)
      → d.least ≡ first xs
      → d.greatest ≡ last xs
      → All IsFinite xs
      → Ascending xs
      → All (IsCovered F d) xs
  sorted-IsCovered d [] l g h a = tt
  sorted-IsCovered d (x ∷ xs) l g h a =
      let (hi, e, bound) = last-bound x xs h a in
      covered d x hi (x ∷ xs) l (g ∙ e) (le_refl x (h.0), a.0) bound

  ends_cover :
      (values : List F.F64) (d : DistSummary F)
      → d.least ≡ first (sort F (finite F values))
      → d.greatest ≡ last (sort F (finite F values))
      → All (IsCovered F d) (finite F values)
  ends_cover values d l g = All-sort-inverse (IsCovered F d) (finite F values) (
      sorted-IsCovered d (sort F (finite F values)) l g
        (All-sort IsFinite (finite F values) (finite-IsFinite values))
        (Ascending-sort (finite F values) (finite-IsFinite values)))

  -- A summary of values is there. It counts the finite values, and each of them is between its
  -- least and its greatest value, when the comparisons order the finite values.
  pub from_values-IsCovered :
      (values : List F.F64)
      → (d : DistSummary F) × (from_values F values ≡ some d)
        × (d.n ≡ length (finite F values))
        × All (IsCovered F d) (finite F values)
  unfolding sort_finite
  from_values-IsCovered values =
      let (d, e, n, l, g) = from_values-kept F values in
      (d, e, n ∙ length-sort (finite F values), ends_cover values d l g)
