-- ===== src/Vlm/Recency.antt =====
-- The images of the cache of src/vlm.rs as a list, the oldest use first.
use bench_cli.Base.{
  ℕ, zero, suc, ◌-◌, ◌≤◌, ◌≡◌, refl, ap, ◌∙◌, true, false, Bool-cases, inl, inr, some, none,
  Option-cases, List, [], ◌∷◌, ◌++◌, length, if◌then◌else◌, is_some, arith,
}
use bench_cli.Text.{Text, text_eq, text_eq_iff}
use bench_cli.Text.Maps.{Map, get}
use bench_cli.Vlm.{ImageData, retain, remove}
use bench_cli.Vlm.Keys.{contains}

-- The images of a cache, the oldest use first.
unfoldable pub contents : Map ImageData → List Text → Map ImageData
contents m [] = []
contents m (k ∷ ks) =
    let rest = contents m ks in elim (get m k) [ none ↦ rest | some v ↦ (k, v) ∷ rest ]

abbrev drop : ℕ → Map ImageData → Map ImageData
drop zero es = es
drop (suc n) [] = []
drop (suc n) (e ∷ es) = drop n es

-- The last entries, at most so many.
unfoldable pub newest : ℕ → Map ImageData → Map ImageData
newest n es = drop (length es - n) es

pub newest-all : (n : ℕ) (es : Map ImageData) → length es ≤ n → newest n es ≡ es
unfolding newest
newest-all n es h = ap (λ d. drop d es) {y = 0} (omega (arith, h))

pub newest-one :
    (n : ℕ) (e : Text × ImageData) (es : Map ImageData) → length es ≡ n → newest n (e ∷ es) ≡ es
unfolding newest
newest-one n e es h = ap (λ d. drop d (e ∷ es)) {y = 1} (omega (arith, h))

module _ (m : Map ImageData) (k : Text) (ks : List Text) where
  contents-none : get m k ≡ none → contents m (k ∷ ks) ≡ contents m ks
  unfolding contents
  contents-none e = rw (e, contents) refl

  pub contents-some :
      (v : ImageData) → get m k ≡ some v → contents m (k ∷ ks) ≡ (k, v) ∷ contents m ks
  unfolding contents
  contents-some v e = rw (e, contents) refl

pub contents-append :
    (m : Map ImageData) (ks : List Text) (k : Text) (v : ImageData)
    → get m k ≡ some v
    → contents m (ks ++ k ∷ []) ≡ contents m ks ++ (k, v) ∷ []
unfolding contents
contents-append m [] k v h = contents-some m k [] v h
contents-append m (j ∷ ks) k v h = elim (Option-cases (get m j)) [
  | inl e ↦
      rw (contents-none m j ks e, contents-none m j (ks ++ k ∷ []) e) (contents-append m ks k v h)
  | inr (w, e) ↦
      rw (contents-some m j ks w e, contents-some m j (ks ++ k ∷ []) w e)
        (ap (λ r. (j, w) ∷ r) (contents-append m ks k v h))
]

remove-first :
    (key k : Text) (v : ImageData) (m : Map ImageData)
    → text_eq k key ≡ true
    → remove key ((k, v) ∷ m) ≡ remove key m
unfolding remove
remove-first key k v m e = rw e refl

remove-other :
    (key k : Text) (v : ImageData) (m : Map ImageData)
    → text_eq k key ≡ false
    → remove key ((k, v) ∷ m) ≡ (k, v) ∷ remove key m
unfolding remove
remove-other key k v m e = rw e refl

pub contents-retain :
    (m : Map ImageData) (key : Text) (ks : List Text)
    → contents m (retain key ks) ≡ remove key (contents m ks)
unfolding retain contents remove
contents-retain m key [] = refl
contents-retain m key (k ∷ ks) = elim (Bool-cases (text_eq k key)) [
  | inl e ↦ elim (Option-cases (get m k)) [
    | inl n ↦ rw (e, contents-none m k ks n) (contents-retain m key ks)
    | inr (v, q) ↦
        rw (e, contents-some m k ks v q, remove-first key k v (contents m ks) e)
          (contents-retain m key ks)
  ]
  | inr e ↦ elim (Option-cases (get m k)) [
    | inl n ↦
        rw (e, contents-none m k ks n, contents-none m k (retain key ks) n)
          (contents-retain m key ks)
    | inr (v, q) ↦
        rw
          (
            e,
            contents-some m k ks v q,
            contents-some m k (retain key ks) v q,
            remove-other key k v (contents m ks) e,
          )
          (ap (λ r. (k, v) ∷ r) (contents-retain m key ks))
  ]
]

-- Two maps that agree on the keys of an order have the same contents.
pub contents-same :
    (m n : Map ImageData) (ks : List Text)
    → ((key : Text) → contains ks key ≡ true → get m key ≡ get n key)
    → contents m ks ≡ contents n ks
unfolding contents contains
contents-same m n [] h = refl
contents-same m n (k ∷ ks) h =
    let rest : contents m ks ≡ contents n ks =
      contents-same m n ks (λ j e. h j (ground (arith, e))) in
    let same : get m k ≡ get n k = h k (ground (arith, (text_eq_iff k k).1 refl)) in
    elim (Option-cases (get n k)) [
      | inl e ↦ rw (contents-none m k ks (same ∙ e), contents-none n k ks e) rest
      | inr (v, e) ↦
          rw (contents-some m k ks v (same ∙ e), contents-some n k ks v e)
            (ap (λ r. (k, v) ∷ r) rest)
    ]

pub get-contents :
    (m : Map ImageData) (ks : List Text) (key : Text)
    → get (contents m ks) key ≡ (if contains ks key then get m key else none)
unfolding contains contents get
get-contents m [] key = refl
get-contents m (k ∷ ks) key = elim (Option-cases (get m k)) [
  | inl e ↦ rw (contents-none m k ks e) (elim (Bool-cases (text_eq k key)) [
    | inl f ↦ ground (arith, get-contents m ks key, f, e, ap (get m) ((text_eq_iff k key).0 f))
    | inr f ↦ ground (arith, get-contents m ks key, f)
  ])
  | inr (v, e) ↦ rw (contents-some m k ks v e) (elim (Bool-cases (text_eq k key)) [
    | inl f ↦ ground (arith, f, e, ap (get m) ((text_eq_iff k key).0 f))
    | inr f ↦ ground (arith, get-contents m ks key, f)
  ])
]

pub length-contents :
    (m : Map ImageData) (ks : List Text)
    → ((key : Text) → contains ks key ≡ true → is_some (get m key) ≡ true)
    → length (contents m ks) ≡ length ks
unfolding contains contents
length-contents m [] h = refl
length-contents m (k ∷ ks) h = elim (Option-cases (get m k)) [
  | inl e ↦ absurd (ground (arith, e, h k (ground (arith, (text_eq_iff k k).1 refl))))
  | inr (v, e) ↦
      rw (contents-some m k ks v e) (ap suc (length-contents m ks (λ j f. h j (ground (arith, f)))))
]
