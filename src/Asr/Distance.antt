-- ===== src/Asr/Distance.antt =====
-- `edit_distance` of src/asr.rs is the least cost of an edit of one list into the other.
use bench_cli.Base.{
  ℕ, suc, ◌+◌, min, ◌≤◌, ◌≡◌, refl, sym, ap, ◌∙◌, subst, ◌↔◌, Bool, true, Bool-cases, inl, inr,
  some, List, [], ◌∷◌, ◌++◌, append_assoc, append-nil, ◌⊎◌, length, get_elem?, arith,
}
use mathlib.Core.Path.{subst₂}
use bench_cli.Asr.{cost, fill, rows, count_up, edit_distance}

-- An edit of one list into another, from left to right, and what it costs.
pub data Edit {A : Type 0} : List A → List A → ℕ → Type 0 where
  nothing : Edit [] [] 0
  keep : (xs ys : List A) (c : ℕ) (x : A) → Edit xs ys c → Edit (xs ++ x ∷ []) (ys ++ x ∷ []) c
  insert : (xs ys : List A) (c : ℕ) (y : A) → Edit xs ys c → Edit xs (ys ++ y ∷ []) (suc c)
  delete : (xs ys : List A) (c : ℕ) (x : A) → Edit xs ys c → Edit (xs ++ x ∷ []) ys (suc c)
  replace :
      (xs ys : List A) (c : ℕ) (x y : A) → Edit xs ys c → Edit (xs ++ x ∷ []) (ys ++ y ∷ []) (suc c)

module _ {A : Type 0} where
  -- A list turned around, onto another.
  abbrev pub onto : List A → List A → List A
  onto [] acc = acc
  onto (x ∷ xs) acc = onto xs (x ∷ acc)

  abbrev backwards : List A → List A
  backwards [] = []
  backwards (x ∷ xs) = backwards xs ++ x ∷ []

  backwards-onto : (xs acc : List A) → backwards (onto xs acc) ≡ backwards acc ++ xs
  backwards-onto [] acc = sym (append-nil (backwards acc))
  backwards-onto (x ∷ xs) acc =
      backwards-onto xs (x ∷ acc) ∙ append_assoc (backwards acc) (x ∷ []) xs

  onto-append : (xs : List A) (x : A) (acc : List A) → onto (xs ++ x ∷ []) acc ≡ x ∷ onto xs acc
  onto-append [] x acc = refl
  onto-append (y ∷ xs) x acc = onto-append xs x (y ∷ acc)

add_one : (n : ℕ) → suc n ≡ n + 1
add_one n = omega arith

min-cases : (a b : ℕ) → (min a b ≡ a) ⊎ (min a b ≡ b)
min-cases a b = omega arith

-- What holds of two numbers holds of the smaller.
min-either : (P : ℕ → Type 0) (a b : ℕ) → P a → P b → P (min a b)
min-either P a b p q = elim (min-cases a b) [
  | inl e ↦ subst P (sym e) p
  | inr e ↦ subst P (sym e) q
]

module _ {A : Type 0} (same : A → A → Bool) where
  -- The distance of two lists that are read from the end.
  unfoldable distance : List A → List A → ℕ
  distance [] ys = length ys
  distance (x ∷ xs) [] = suc (length xs)
  distance (x ∷ xs) (y ∷ ys) =
      min (min (distance xs (y ∷ ys) + 1) (distance (x ∷ xs) ys + 1))
        (distance xs ys + cost same x y)

  -- The cells of a row: `ra` is what the rows so far have read, `rb` what the columns have.
  unfoldable cells : List A → List A → List A → List ℕ
  unfolding distance
  cells ra rb [] = distance ra rb ∷ []
  cells ra rb (y ∷ ys) = distance ra rb ∷ cells ra (y ∷ rb) ys

  distance-nil : (xs : List A) → distance xs [] ≡ length xs
  unfolding distance
  distance-nil [] = refl
  distance-nil (x ∷ xs) = refl

  fill-cells :
      (x : A) (ra rb ys : List A)
      → distance (x ∷ ra) rb ∷ fill same x (distance (x ∷ ra) rb) (cells ra rb ys) ys
        ≡ cells (x ∷ ra) rb ys
  unfolding fill cells distance
  fill-cells x ra rb [] = refl
  fill-cells x ra rb (y ∷ []) = refl
  fill-cells x ra rb (y ∷ z ∷ ys) =
      ap (λ r. distance (x ∷ ra) rb ∷ r) (fill-cells x ra (y ∷ rb) (z ∷ ys))

  rows-cells :
      (ra expected actual : List A)
      → rows same (length ra) (cells ra [] actual) expected actual
        ≡ cells (onto expected ra) [] actual
  unfolding rows distance
  rows-cells ra [] actual = refl
  rows-cells ra (x ∷ expected) actual =
      ap (λ r. rows same (suc (length ra)) r expected actual)
        (subst (λ n. n ∷ fill same x n (cells ra [] actual) actual ≡ cells (x ∷ ra) [] actual)
          (omega arith) (fill-cells x ra [] actual))
      ∙ rows-cells (x ∷ ra) expected actual

  count_up-cells : (rb actual : List A) → count_up same (length rb) actual ≡ cells [] rb actual
  unfolding count_up cells distance
  count_up-cells rb [] = refl
  count_up-cells rb (y ∷ actual) = ap (λ r. length rb ∷ r) (count_up-cells (y ∷ rb) actual)

  last-cells :
      (ra rb ys : List A) → get_elem? (cells ra rb ys) (length ys) ≡ some (distance ra (onto ys rb))
  unfolding cells
  last-cells ra rb [] = refl
  last-cells ra rb (y ∷ ys) = last-cells ra (y ∷ rb) ys

  edit_distance-distance :
      (expected actual : List A)
      → edit_distance same expected actual ≡ some (distance (onto expected []) (onto actual []))
  unfolding edit_distance
  edit_distance-distance expected actual =
      ap (λ r. get_elem? (rows same 0 r expected actual) (length actual)) (count_up-cells [] actual)
      ∙ ap (λ r. get_elem? r (length actual)) (rows-cells [] expected actual)
      ∙ last-cells (onto expected []) [] actual

  either-edit :
      ((a b : A) → same a b ≡ true → a ≡ b)
      → (xs ys : List A) (c : ℕ) (x y : A) → Edit xs ys c
      → Edit (xs ++ x ∷ []) (ys ++ y ∷ []) (c + cost same x y)
  either-edit exact xs ys c x y e = elim (Bool-cases (same x y)) [
    | inl h ↦
        subst (λ n. Edit (xs ++ x ∷ []) (ys ++ y ∷ []) n) (ground (arith, h))
          (subst (λ z. Edit (xs ++ x ∷ []) (ys ++ z ∷ []) c) (exact x y h) (keep xs ys c x e))
    | inr h ↦
        subst (λ n. Edit (xs ++ x ∷ []) (ys ++ y ∷ []) n) (ground (arith, h))
          (replace xs ys c x y e)
  ]

  distance-edit :
      ((a b : A) → same a b ≡ true → a ≡ b)
      → (ra rb : List A) → Edit (backwards ra) (backwards rb) (distance ra rb)
  unfolding distance
  distance-edit exact [] [] = nothing
  distance-edit exact [] (y ∷ rb) =
      insert [] (backwards rb) (length rb) y (distance-edit exact [] rb)
  distance-edit exact (x ∷ ra) [] =
      delete (backwards ra) [] (length ra) x
        (subst (Edit (backwards ra) []) (distance-nil ra) (distance-edit exact ra []))
  distance-edit exact (x ∷ ra) (y ∷ rb) =
      min-either (Edit (backwards (x ∷ ra)) (backwards (y ∷ rb))) _ _
        (min-either (Edit (backwards (x ∷ ra)) (backwards (y ∷ rb))) _ _
          (subst (Edit (backwards (x ∷ ra)) (backwards (y ∷ rb))) (add_one _)
            (delete _ _ _ x (distance-edit exact ra (y ∷ rb))))
          (subst (Edit (backwards (x ∷ ra)) (backwards (y ∷ rb))) (add_one _)
            (insert _ _ _ y (distance-edit exact (x ∷ ra) rb))))
        (either-edit exact (backwards ra) (backwards rb) (distance ra rb) x y
          (distance-edit exact ra rb))

  distance-delete : (x : A) (ra rb : List A) → distance (x ∷ ra) rb ≤ suc (distance ra rb)
  unfolding distance
  distance-delete x ra [] = omega (arith, distance-nil ra)
  distance-delete x ra (y ∷ rb) = omega arith

  distance-insert : (y : A) (ra rb : List A) → distance ra (y ∷ rb) ≤ suc (distance ra rb)
  unfolding distance
  distance-insert y [] rb = omega arith
  distance-insert y (x ∷ ra) rb = omega arith

  distance-le :
      ((a : A) → same a a ≡ true)
      → (xs ys : List A) (c : ℕ) → Edit xs ys c
      → distance (onto xs []) (onto ys []) ≤ c
  unfolding distance
  distance-le refl_same _ _ _ nothing = omega arith
  distance-le refl_same _ _ _ (keep xs ys c x e) =
      rw (onto-append xs x [], onto-append ys x [])
        (ground (arith, refl_same x, distance-le refl_same xs ys c e))
  distance-le refl_same _ _ _ (insert xs ys c y e) =
      rw (onto-append ys y []) (
        omega (arith, distance-insert y (onto xs []) (onto ys []), distance-le refl_same xs ys c e))
  distance-le refl_same _ _ _ (delete xs ys c x e) =
      rw (onto-append xs x []) (
        omega (arith, distance-delete x (onto xs []) (onto ys []), distance-le refl_same xs ys c e))
  distance-le refl_same _ _ _ (replace xs ys c x y e) =
      rw (onto-append xs x [], onto-append ys y [])
        (ground (arith, distance-le refl_same xs ys c e))

  edit-distance :
      ((a b : A) → (same a b ≡ true) ↔ (a ≡ b))
      → (xs ys : List A) → Edit xs ys (distance (onto xs []) (onto ys []))
  edit-distance exact xs ys =
      subst₂ (λ us vs. Edit us vs (distance (onto xs []) (onto ys []))) (backwards-onto xs [])
        (backwards-onto ys []) (distance-edit (λ a b. (exact a b).0) (onto xs []) (onto ys []))

  -- Between two lists that an edit of some cost turns into each other, the distance is the cost of
  -- an edit, and no more than that cost, when the test decides equality.
  pub edit_distance_lem :
      ((a b : A) → (same a b ≡ true) ↔ (a ≡ b))
      → (xs ys : List A) (c : ℕ) → Edit xs ys c
      → (d : ℕ) × (edit_distance same xs ys ≡ some d) × Edit xs ys d × (d ≤ c)
  edit_distance_lem exact xs ys c e = (
    distance (onto xs []) (onto ys []),
    edit_distance-distance xs ys,
    edit-distance exact xs ys,
    distance-le (λ a. (exact a a).1 refl) xs ys c e,
  )

free-Equal : {A : Type 0} (xs ys : List A) (c : ℕ) → Edit xs ys c → c ≡ 0 → xs ≡ ys
free-Equal _ _ _ nothing z = refl
free-Equal _ _ _ (keep xs ys c x e) z = ap (λ us. us ++ x ∷ []) (free-Equal xs ys c e z)
free-Equal _ _ _ (insert xs ys c y e) z = absurd (omega (arith, z))
free-Equal _ _ _ (delete xs ys c x e) z = absurd (omega (arith, z))
free-Equal _ _ _ (replace xs ys c x y e) z = absurd (omega (arith, z))

kept : {A : Type 0} (xs zs : List A) → Edit zs zs 0 → Edit (zs ++ xs) (zs ++ xs) 0
kept [] zs e = subst (λ us. Edit us us 0) (sym (append-nil zs)) e
kept (x ∷ xs) zs e =
    subst (λ us. Edit us us 0) (append_assoc zs (x ∷ []) xs)
      (kept xs (zs ++ x ∷ []) (keep zs zs 0 x e))

-- The distance is zero exactly between equal lists, when the test decides equality.
pub edit_distance_zero_iff :
    {A : Type 0} (same : A → A → Bool)
    → ((a b : A) → (same a b ≡ true) ↔ (a ≡ b))
    → (xs ys : List A) → (edit_distance same xs ys ≡ some 0) ↔ (xs ≡ ys)
edit_distance_zero_iff same exact xs ys =
    let d = distance same (onto xs []) (onto ys []) in
    (
      λ h.
          free-Equal xs ys d (edit-distance same exact xs ys)
            (cc (sym (edit_distance-distance same xs ys) ∙ h)),
      λ e.
          subst (λ us. edit_distance same xs us ≡ some 0) e
            (edit_distance-distance same xs xs
              ∙ ap some (
                  omega (
                    arith,
                    distance-le same (λ a. (exact a a).1 refl) xs xs 0 (kept xs [] nothing),
                  ))),
    )
