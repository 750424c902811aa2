-- ===== src/Vlm/Keys.antt =====
-- Lists of distinct keys, as the map and the order of the image cache of src/vlm.rs have them.
use bench_cli.Base.{
  ◌+◌, ◌≡◌, refl, ap, Bool, true, false, not, ◌&&◌, ◌||◌, Bool-cases, Option-cases, inl, inr, some,
  none, and_then, List, [], ◌∷◌, ◌++◌, length, if◌then◌else◌, is_some, arith,
}
use bench_cli.Text.{Text, text_eq, text_eq_iff}
use bench_cli.Text.Maps.{Map, differ, get, insert}
use bench_cli.Vlm.{ImageData, position, remove_at, retain, remove, touch}

-- Whether a key is in a list.
unfoldable pub contains : List Text → Text → Bool
contains [] key = false
contains (k ∷ ks) key = text_eq k key || contains ks key

-- No key is in the list twice.
abbrev pub Distinct : List Text → Type 0
Distinct [] = Unit
Distinct (k ∷ ks) = (contains ks k ≡ false) × Distinct ks

abbrev pub keys : Map ImageData → List Text
keys [] = []
keys ((k, v) ∷ m) = k ∷ keys m

text_eq-same : (k : Text) → text_eq k k ≡ true
text_eq-same k = (text_eq_iff k k).1 refl

text_eq_comm : (i j : Text) → text_eq i j ≡ text_eq j i
unfolding text_eq
text_eq_comm [] [] = refl
text_eq_comm [] (y ∷ j) = refl
text_eq_comm (x ∷ i) [] = refl
text_eq_comm (x ∷ i) (y ∷ j) = ground (arith, text_eq_comm i j)

pub contains-append :
    (ks : List Text) (k j : Text) → contains (ks ++ k ∷ []) j ≡ contains ks j || text_eq k j
unfolding contains
contains-append [] k j = ground arith
contains-append (i ∷ ks) k j = ground (arith, contains-append ks k j)

-- A test of a key that stands for another.
text_eq-subst : (i k j : Text) → text_eq i k ≡ true → text_eq i j ≡ text_eq k j
text_eq-subst i k j e = ap (λ t. text_eq t j) ((text_eq_iff i k).0 e)

pub contains-retain :
    (key : Text) (ks : List Text) (j : Text)
    → contains (retain key ks) j ≡ contains ks j && not (text_eq key j)
unfolding contains retain
contains-retain key [] j = refl
contains-retain key (k ∷ ks) j = elim (Bool-cases (text_eq k key)) [
  | inl e ↦ rw (e, text_eq-subst k key j e) (ground (arith, contains-retain key ks j))
  | inr e ↦ rw e (ground (arith, contains-retain key ks j, differ k j key e))
]

pub Distinct-retain : (key : Text) (ks : List Text) → Distinct ks → Distinct (retain key ks)
unfolding retain
Distinct-retain key [] d = tt
Distinct-retain key (k ∷ ks) d = elim (Bool-cases (text_eq k key)) [
  | inl e ↦ rw e (Distinct-retain key ks d.1)
  | inr e ↦ rw e (ground (arith, contains-retain key ks k, d.0), Distinct-retain key ks d.1)
]

pub Distinct-append :
    (ks : List Text) (key : Text)
    → Distinct ks
    → contains ks key ≡ false
    → Distinct (ks ++ key ∷ [])
unfolding contains
Distinct-append [] key d h = (refl, tt)
Distinct-append (k ∷ ks) key d h = (
  ground (arith, contains-append ks key k, text_eq_comm k key, d.0, h),
  Distinct-append ks key d.1 ground (arith, h),
)

pub retain-absent : (key : Text) (ks : List Text) → contains ks key ≡ false → retain key ks ≡ ks
unfolding contains retain
retain-absent key [] h = refl
retain-absent key (k ∷ ks) h = ground (arith, retain-absent key ks)

pub length-retain :
    (key : Text) (ks : List Text)
    → Distinct ks
    → length (retain key ks) + (if contains ks key then 1 else 0) ≡ length ks
unfolding contains retain
length-retain key [] d = refl
length-retain key (k ∷ ks) d = elim (Bool-cases (text_eq k key)) [
  | inl e ↦ ground (
    arith,
    length-retain key ks d.1,
    d.0,
    (text_eq_iff k key).0 e,
    ap (contains ks) ((text_eq_iff k key).0 e),
  )
  | inr e ↦ rw e (ground (arith, length-retain key ks d.1))
]

pub keys-insert :
    (key : Text) (v : ImageData) (m : Map ImageData)
    → keys (insert key v m) ≡ (if contains (keys m) key then keys m else keys m ++ key ∷ [])
unfolding contains insert
keys-insert key v [] = refl
keys-insert key v ((k, w) ∷ m) = elim (Bool-cases (text_eq k key)) [
  | inl e ↦ rw e refl
  | inr e ↦ rw e (ground (arith, keys-insert key v m))
]

pub keys-remove : (key : Text) (m : Map ImageData) → keys (remove key m) ≡ retain key (keys m)
unfolding remove retain
keys-remove key [] = refl
keys-remove key ((k, w) ∷ m) = elim (Bool-cases (text_eq k key)) [
  | inl e ↦ rw e (keys-remove key m)
  | inr e ↦ rw e (ap (λ ks. k ∷ ks) (keys-remove key m))
]

pub contains-keys : (m : Map ImageData) (key : Text) → contains (keys m) key ≡ is_some (get m key)
unfolding contains get
contains-keys [] key = refl
contains-keys ((k, w) ∷ m) key = ground (arith, contains-keys m key)

pub get-remove :
    (key : Text) (m : Map ImageData) (j : Text)
    → get (remove key m) j ≡ (if text_eq key j then none else get m j)
unfolding get remove
get-remove key [] j = ground arith
get-remove key ((k, w) ∷ m) j = elim (Bool-cases (text_eq k key)) [
  | inl e ↦ rw (e, text_eq-subst k key j e) (ground (arith, get-remove key m j))
  | inr e ↦ rw e (ground (arith, get-remove key m j, differ k j key e))
]

removed-retain :
    (key : Text) (ks : List Text)
    → Distinct ks
    → contains ks key ≡ true
    → and_then (position key ks) (λ pos. remove_at pos ks) ≡ some (key, retain key ks)
unfolding contains retain position remove_at
removed-retain key [] d h = absurd (cc h)
removed-retain key (k ∷ ks) d h = elim (Bool-cases (text_eq k key)) [
  | inl e ↦ rw e ground (
    arith,
    retain-absent key ks,
    (text_eq_iff k key).0 e,
    d.0,
    ap (contains ks) ((text_eq_iff k key).0 e),
  )
  | inr e ↦ rw e (elim (Option-cases (position key ks)) [
    | inl n ↦ ground (arith, removed-retain key ks d.1, n, h, e)
    | inr (i, p) ↦ rw p (ground (arith, removed-retain key ks d.1, p, h, e))
  ])
]

pub touch-retain :
    (key : Text) (ks : List Text)
    → Distinct ks
    → contains ks key ≡ true
    → touch key ks ≡ retain key ks ++ key ∷ []
unfolding touch
touch-retain key ks d h = rw (removed-retain key ks d h, touch) refl
