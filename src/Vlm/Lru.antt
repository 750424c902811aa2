-- ===== src/Vlm/Lru.antt =====
-- The image cache of src/vlm.rs keeps the most recently used images, as many as its capacity.
use bench_cli.Base.{
  ℕ, ◌≡◌, refl, sym, ap, ap₂, ◌∙◌, subst, true, false, Bool-cases, inl, inr, some, none, Option,
  Option-cases, List, [], ◌∷◌, ◌++◌, length, if◌then◌else◌, arith, length-append, ok,
}
use bench_cli.Text.{Text, text_eq, text_eq_iff}
use bench_cli.Text.Maps.{Map, get, insert, get-insert}
use bench_cli.Vlm.{ImageData, ImageCache, new, retain, remove, lookup, put}
use bench_cli.Vlm.Keys.{
  contains, Distinct, contains-keys, contains-retain, get-remove, retain-absent,
}
use bench_cli.Vlm.Paired.{
  IsValid, cache_of, lookup-cases, known, room, full, put-PutCase, new-cache_of, new-IsValid,
  put-IsValid, lookup-IsValid,
}
use bench_cli.Vlm.Recency.{
  contents, newest, newest-all, newest-one, contents-some, contents-append, contents-retain,
  contents-same, get-contents, length-contents,
}

-- The images of a cache, the oldest use first.
abbrev pub images : ImageCache → Map ImageData
images cache = contents cache.map cache.order

-- What a use of a key does to a list of images.
unfoldable pub use_image : Text → Map ImageData → Map ImageData
use_image key es = elim (get es key) [ none ↦ es | some value ↦ remove key es ++ (key, value) ∷ [] ]

use_image-none : (key : Text) (es : Map ImageData) → get es key ≡ none → use_image key es ≡ es
unfolding use_image
use_image-none key es e = rw (e, use_image) refl

use_image-some :
    (key : Text) (value : ImageData) (es : Map ImageData)
    → get es key ≡ some value
    → use_image key es ≡ remove key es ++ (key, value) ∷ []
unfolding use_image
use_image-some key value es e = rw (e, use_image) refl

images-length : (cache : ImageCache) → IsValid cache → length (images cache) ≡ length cache.order
images-length cache v =
    length-contents cache.map cache.order
      (λ k here. sym (contains-keys cache.map k) ∙ sym (v.agree k) ∙ here)

-- The images after a new entry, when the map lost no image of the rest of the order.
images-insert :
    (key : Text) (value : ImageData) (m n : Map ImageData) (ks : List Text)
    → contains ks key ≡ false
    → ((j : Text) → contains ks j ≡ true → get n j ≡ get m j)
    → contents (insert key value n) (ks ++ key ∷ []) ≡ contents m ks ++ (key, value) ∷ []
images-insert key value m n ks absent same =
    contents-append (insert key value n) ks key value
      (get-insert key value n key ∙ rw ((text_eq_iff key key).1 refl) refl)
    ∙ ap (λ es. es ++ (key, value) ∷ []) (contents-same (insert key value n) m ks kept)
  where
    kept : (j : Text) → contains ks j ≡ true → get (insert key value n) j ≡ get m j
    kept j here = elim (Bool-cases (text_eq key j)) [
      | inl e ↦ absurd (cc (here, absent, ap (contains ks) ((text_eq_iff key j).0 e)))
      | inr e ↦ get-insert key value n j ∙ rw e (same j here)
    ]

others :
    (oldest : Text) (rest : List Text)
    → contains rest oldest ≡ false
    → (j : Text) → contains rest j ≡ true
    → text_eq oldest j ≡ false
others oldest rest once j here = elim (Bool-cases (text_eq oldest j)) [
  | inl e ↦ absurd (cc (here, once, ap (contains rest) ((text_eq_iff oldest j).0 e)))
  | inr e ↦ e
]

present :
    (cache : ImageCache)
    → IsValid cache
    → (key : Text) → contains cache.order key ≡ true
    → (value : ImageData) × (get cache.map key ≡ some value)
present cache v key here = elim (Option-cases (get cache.map key)) [
  | inl e ↦ absurd (ground (arith, e, contains-keys cache.map key, v.agree key, here))
  | inr found ↦ found
]

module _ (key : Text) (cache : ImageCache) (v : IsValid cache) where
  images-get :
      get (images cache) key ≡ (if contains cache.order key then get cache.map key else none)
  images-get = get-contents cache.map cache.order key

  lookup_lem :
      ((lookup key cache).0 ≡ get (images cache) key)
      × (images ((lookup key cache).1) ≡ use_image key (images cache))
  lookup_lem = elim (lookup-cases key cache.map cache.order cache.capacity v) [
    | inl h ↦
        let gone : get (images cache) key ≡ none = images-get ∙ rw (h.0) refl in
        rw (h.1) (sym gone, sym (use_image-none key (images cache) gone))
    | inr h ↦
        let found : get (images cache) key ≡ get cache.map key = images-get ∙ rw (h.0) refl in
        let (value, e) = present cache v key (h.0) in
        rw (h.1) (
          sym found,
          contents-append cache.map (retain key cache.order) key value e
              ∙ ap (λ es. es ++ (key, value) ∷ []) (contents-retain cache.map key cache.order)
              ∙ sym (use_image-some key value (images cache) (found ∙ e)),
        )
  ]

  -- The images after `put`, when no image was dropped.
  put-all :
      (value : ImageData) (next : ImageCache) (es : Map ImageData)
      → put key value cache ≡ next
      → next.capacity ≡ cache.capacity
      → images next ≡ es
      → images (put key value cache) ≡ newest cache.capacity es
  put-all value next es e same h =
      let stored : IsValid next = subst IsValid e (put-IsValid key value cache v) in
      ap images e
      ∙ h
      ∙ sym (
          newest-all cache.capacity es
            (omega (arith, ap length h, images-length next stored, stored.bounded, same)))

  remove-absent : contains cache.order key ≡ false → remove key (images cache) ≡ images cache
  remove-absent absent =
      sym (contents-retain cache.map key cache.order)
      ∙ ap (contents cache.map) (retain-absent key cache.order absent)

  put-full :
      (value : ImageData) (oldest : Text) (rest : List Text)
      → contains cache.order key ≡ false
      → cache.order ≡ oldest ∷ rest
      → length cache.order ≡ cache.capacity
      → put key value cache
        ≡ cache_of (insert key value (remove oldest cache.map)) (rest ++ key ∷ []) cache.capacity
      → images (put key value cache) ≡ newest cache.capacity (images cache ++ (key, value) ∷ [])
  unfolding contains
  put-full value oldest rest absent split size e =
      let in_rest : contains rest key ≡ false =
        ground (arith, absent, ap (λ ks. contains ks key) split) in
      let once : contains rest oldest ≡ false = (subst Distinct split (v.order_once)).0 in
      let (image, first) = present cache v oldest (
        ap (λ ks. contains ks oldest) split ∙ ground (arith, (text_eq_iff oldest oldest).1 refl)) in
      let kept = contents cache.map rest ++ (key, value) ∷ [] in
      let stored : IsValid (
          cache_of (insert key value (remove oldest cache.map)) (rest ++ key ∷ []) cache.capacity) =
        subst IsValid e (put-IsValid key value cache v) in
      let rest_images =
        images-insert key value cache.map (remove oldest cache.map) rest in_rest
          (λ j here. get-remove oldest cache.map j ∙ rw (others oldest rest once j here) refl) in
      ap images e
      ∙ rest_images
      ∙ sym (
          ap (λ es. newest cache.capacity (es ++ (key, value) ∷ []))
            (ap (contents cache.map) split ∙ contents-some cache.map oldest rest image first)
          ∙ newest-one cache.capacity (oldest, image) kept
              (omega (
                arith,
                ap length rest_images,
                images-length _ stored,
                size,
                ap length split,
                length-append rest (key ∷ []),
              )))

  put_lem :
      (value : ImageData)
      → images (put key value cache)
        ≡ newest cache.capacity (remove key (images cache) ++ (key, value) ∷ [])
  put_lem value = elim (put-PutCase key cache.map cache.order cache.capacity v value) [
    | known here e ↦ put-all value _ _ e refl (
        images-insert key value cache.map cache.map (retain key cache.order)
          (ground (arith, contains-retain key cache.order key, (text_eq_iff key key).1 refl))
          (λ j h. refl)
        ∙ ap (λ es. es ++ (key, value) ∷ []) (contents-retain cache.map key cache.order))
    | room absent free e ↦ put-all value _ _ e refl (
        images-insert key value cache.map cache.map cache.order absent (λ j h. refl)
        ∙ ap (λ es. es ++ (key, value) ∷ []) (sym (remove-absent absent)))
    | full absent oldest rest split size e ↦
        put-full value oldest rest absent split size e
        ∙ ap (λ es. newest cache.capacity (es ++ (key, value) ∷ [])) (sym (remove-absent absent))
  ]

-- A use of the cache.
pub data Use : Type 0 where
  get_image : Text → Use
  put_image : Text → ImageData → Use

-- One use after the other.
unfoldable pub run : List Use → ImageCache → ImageCache
run [] cache = cache
run (get_image key ∷ uses) cache = run uses ((lookup key cache).1)
run (put_image key value ∷ uses) cache = run uses (put key value cache)

-- The same uses of a list that keeps the `capacity` images that were used last.
unfoldable pub run_list : ℕ → List Use → Map ImageData → Map ImageData
run_list capacity [] es = es
run_list capacity (get_image key ∷ uses) es = run_list capacity uses (use_image key es)
run_list capacity (put_image key value ∷ uses) es =
    run_list capacity uses (newest capacity (remove key es ++ (key, value) ∷ []))

lookup-capacity :
    (key : Text) (cache : ImageCache)
    → IsValid cache
    → (lookup key cache).1.capacity ≡ cache.capacity
lookup-capacity key cache v = elim (lookup-cases key cache.map cache.order cache.capacity v) [
  | inl h ↦ ap (λ (r : Option ImageData × ImageCache). r.1.capacity) (h.1)
  | inr h ↦ ap (λ (r : Option ImageData × ImageCache). r.1.capacity) (h.1)
]

put-capacity :
    (key : Text) (value : ImageData) (cache : ImageCache)
    → IsValid cache
    → (put key value cache).capacity ≡ cache.capacity
put-capacity key value cache v =
    elim (put-PutCase key cache.map cache.order cache.capacity v value) [
      | known here e ↦ ap (λ (c : ImageCache). c.capacity) e
      | room absent free e ↦ ap (λ (c : ImageCache). c.capacity) e
      | full absent oldest rest split size e ↦ ap (λ (c : ImageCache). c.capacity) e
    ]

run-run_list :
    (uses : List Use) (cache : ImageCache)
    → IsValid cache
    → IsValid (run uses cache)
      × (images (run uses cache) ≡ run_list cache.capacity uses (images cache))
unfolding run run_list
run-run_list [] cache v = (v, refl)
run-run_list (get_image key ∷ uses) cache v =
    let (valid, same) = run-run_list uses ((lookup key cache).1) (lookup-IsValid key cache v) in
    (
      valid,
      same
          ∙ ap₂ (λ c es. run_list c uses es) (lookup-capacity key cache v)
              ((lookup_lem key cache v).1),
    )
run-run_list (put_image key value ∷ uses) cache v =
    let (valid, same) = run-run_list uses (put key value cache) (put-IsValid key value cache v) in
    (
      valid,
      same
          ∙ ap₂ (λ c es. run_list c uses es) (put-capacity key value cache v)
              (put_lem key cache v value),
    )

-- Any uses of a new cache leave its map and its order with the same keys, each once and not more
-- than the capacity, and its images are those of a list that keeps the `capacity` images that were
-- used last.
pub run-new :
    (capacity : ℕ) (cache : ImageCache) (uses : List Use)
    → new capacity ≡ ok cache
    → IsValid (run uses cache) × (images (run uses cache) ≡ run_list capacity uses [])
unfolding new contents
run-new capacity cache uses h =
    let (valid, same) = run-run_list uses cache (new-IsValid capacity cache h) in
    (
      valid,
      same
          ∙ ap (λ (c : ImageCache). run_list c.capacity uses (images c))
              (sym (new-cache_of capacity cache h)),
    )

-- In a cache whose map and order agree, `get` finds the image that is in the list of images and
-- makes it the one used last, and after `put` the images are the `capacity` newest of the others
-- and the new one.
pub lookup-put-images :
    (key : Text) (value : ImageData) (cache : ImageCache)
    → IsValid cache
    → ((lookup key cache).0 ≡ get (images cache) key)
      × (images ((lookup key cache).1) ≡ use_image key (images cache))
      × (images (put key value cache)
          ≡ newest cache.capacity (remove key (images cache) ++ (key, value) ∷ []))
lookup-put-images key value cache v =
    ((lookup_lem key cache v).0, (lookup_lem key cache v).1, put_lem key cache v value)
