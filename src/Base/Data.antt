-- ===== src/Base/Data.antt =====
-- Optional values, results and numbers of the language that the sources use.
use Prim.Native.Nat.{ℕ}
use mathlib.Core.Path.{◌≡◌, refl}
use mathlib.Core.Logic.{◌⊎◌, inl, inr}
use mathlib.Core.Bool.{Bool, true, false}
use mathlib.Core.Option.{Option, none, some}
use mathlib.Core.List.{List, [], ◌∷◌}

-- `Result<A, E>`
pub data Result (A E : Type 0) : Type 0 where
  err : E → Result A E
  ok : A → Result A E

pub Result-cases :
    {A E : Type 0} (r : Result A E) → ((e : E) × (r ≡ err e)) ⊎ ((a : A) × (r ≡ ok a))
Result-cases (ok a) = inr (a, refl)
Result-cases (err e) = inl (e, refl)

module _ {ℓ κ} {A : Type ℓ} {B : Type κ} where
  -- `Option::and_then`
  abbrev pub and_then : Option A → (A → Option B) → Option B
  and_then none f = none
  and_then (some a) f = f a

  -- `Option::map`
  abbrev pub map_some : Option A → (A → B) → Option B
  map_some none f = none
  map_some (some a) f = some (f a)

module _ {ℓ} {A : Type ℓ} where
  -- `Option::or`
  abbrev pub or_else : Option A → Option A → Option A
  or_else none b = b
  or_else (some a) b = some a

  -- `Option::unwrap_or`
  abbrev pub unwrap_or : Option A → A → A
  unwrap_or none d = d
  unwrap_or (some a) d = a

  -- `Option::is_some`
  abbrev pub is_some : Option A → Bool
  is_some none = false
  is_some (some a) = true

  -- `Option::is_some_and`
  abbrev pub is_some_and : Option A → (A → Bool) → Bool
  is_some_and none p = false
  is_some_and (some a) p = p a

  -- `Option::is_none_or`
  abbrev pub is_none_or : Option A → (A → Bool) → Bool
  is_none_or none p = true
  is_none_or (some a) p = p a

  -- `Option::filter`
  abbrev pub filter_some : Option A → (A → Bool) → Option A
  filter_some none p = none
  filter_some (some a) p = elim (p a) [ true ↦ some a | false ↦ none ]

  -- `slice::first`
  abbrev pub first : List A → Option A
  first [] = none
  first (x ∷ xs) = some x

  -- `Iterator::any`
  abbrev pub any : (A → Bool) → List A → Bool
  any p [] = false
  any p (x ∷ xs) = elim (p x) [ true ↦ true | false ↦ any p xs ]

  -- `Iterator::find`
  abbrev pub find : (A → Bool) → List A → Option A
  find p [] = none
  find p (x ∷ xs) = elim (p x) [ true ↦ some x | false ↦ find p xs ]

-- `f64`. The language has the type; its arithmetic is not modelled, so the values and the
-- operations that the sources use are a parameter.
pub record Float : Type 1 where
  pub F64 : Type 0
  pub of_nat : ℕ → F64
  pub to_u64 : F64 → ℕ
  pub add : F64 → F64 → F64
  pub sub : F64 → F64 → F64
  pub mul : F64 → F64 → F64
  pub div : F64 → F64 → F64
  pub min : F64 → F64 → F64
  pub max : F64 → F64 → F64
  pub lt : F64 → F64 → Bool
  pub le : F64 → F64 → Bool
  pub eq : F64 → F64 → Bool
  pub abs : F64 → F64
  pub fract : F64 → F64
  pub is_finite : F64 → Bool
  pub total_gt : F64 → F64 → Bool
  pub floor : F64 → F64
  pub ceil : F64 → F64
  pub sqrt : F64 → F64
  pub infinity : F64
  pub neg_infinity : F64
  pub epsilon : F64
