-- ===== src/Text/Maps.antt =====
-- `BTreeMap` with text keys, as an association list with one entry per key.
use bench_cli.Base.{
  ◌≡◌, refl, sym, ◌∙◌, true, false, Bool-cases, inl, inr, Option, none, some, List, [], ◌∷◌, arith,
  if◌then◌else◌,
}
use bench_cli.Text.{Text, text_eq, text_eq_iff}

abbrev pub Map : Type 0 → Type 0
Map V = List (Text × V)

pub differ : (i j k : Text) → text_eq i k ≡ false → text_eq i j ≡ true → text_eq k j ≡ false
differ i j k e d = elim (Bool-cases (text_eq k j)) [
  | inl same ↦
      absurd (cc (e, (text_eq_iff i k).1 ((text_eq_iff i j).0 d ∙ sym ((text_eq_iff k j).0 same))))
  | inr h ↦ h
]

module _ {V : Type 0} where
  -- `BTreeMap::get`
  unfoldable pub get : Map V → Text → Option V
  get [] k = none
  get ((j, v) ∷ m) k = let rest = get m k in if text_eq j k then some v else rest

  -- `BTreeMap::insert`
  unfoldable pub insert : Text → V → Map V → Map V
  insert k v [] = (k, v) ∷ []
  insert k v ((j, w) ∷ m) =
      let rest = insert k v m in if text_eq j k then (j, v) ∷ m else (j, w) ∷ rest

  -- A key's entry is the one that was put in last.
  pub get-insert :
      (k : Text) (v : V) (m : Map V) (j : Text)
      → get (insert k v m) j ≡ (if text_eq k j then some v else get m j)
  unfolding get insert
  get-insert k v [] j = refl
  get-insert k v ((i, w) ∷ m) j = elim (Bool-cases (text_eq i k)) [
    | inl e ↦ rw e (rw ((text_eq_iff i k).0 e) (ground arith))
    | inr e ↦ rw e (ground (arith, get-insert k v m j, differ i j k e))
  ]
