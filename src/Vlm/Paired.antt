-- ===== src/Vlm/Paired.antt =====
-- The map and the order of the image cache of src/vlm.rs have the same keys, each once, and not
-- more than the capacity.
use bench_cli.Base.{
  ℕ, suc, ◌≤◌, ◌≡◌, refl, sym, ap, ◌∙◌, subst, true, false, Bool-cases, ◌⊎◌, inl, inr, none, Option,
  List, [], ◌∷◌, ◌++◌, length, is_some, arith, length-append, leb, ok,
}
use bench_cli.Text.{Text, text_eq, text_eq_iff}
use bench_cli.Text.Maps.{Map, get, insert}
use bench_cli.Vlm.{ImageData, ImageCache, new, retain, remove, lookup, put, make_room, evict}
use bench_cli.Vlm.Keys.{
  contains, Distinct, keys, contains-append, contains-retain, Distinct-retain, Distinct-append,
  length-retain, keys-insert, keys-remove, contains-keys, touch-retain,
}

-- The keys of a map and an order are the same, each once, and not more than the capacity.
pub record IsPaired (capacity : ℕ) (ks order : List Text) : Type 0 where
  pub positive : 1 ≤ capacity
  pub bounded : length order ≤ capacity
  pub same_length : length ks ≡ length order
  pub agree : (key : Text) → contains order key ≡ contains ks key
  pub order_once : Distinct order
  pub keys_once : Distinct ks

abbrev pub IsValid : ImageCache → Type 0
IsValid cache = IsPaired cache.capacity (keys cache.map) cache.order

contains-same : (ks : List Text) (i j : Text) → text_eq i j ≡ true → contains ks j ≡ contains ks i
contains-same ks i j e = ap (contains ks) (sym ((text_eq_iff i j).0 e))

module _ (capacity : ℕ) (ks order : List Text) (key : Text) where
  IsPaired-append :
      IsPaired capacity ks order
      → suc (length order) ≤ capacity
      → contains order key ≡ false
      → IsPaired capacity (ks ++ key ∷ []) (order ++ key ∷ [])
  IsPaired-append p room absent = record {
    positive = p.positive;
    bounded = omega (arith, length-append order (key ∷ []), room);
    same_length =
        omega (arith, length-append order (key ∷ []), length-append ks (key ∷ []), p.same_length);
    agree = λ j. ground (arith, contains-append order key j, contains-append ks key j, p.agree j);
    order_once = Distinct-append order key (p.order_once) absent;
    keys_once = Distinct-append ks key (p.keys_once) (sym (p.agree key) ∙ absent);
  }

  IsPaired-move :
      IsPaired capacity ks order
      → contains order key ≡ true
      → IsPaired capacity ks (retain key order ++ key ∷ [])
  IsPaired-move p here = record {
    positive = p.positive;
    bounded = omega (arith, moved_length, p.bounded);
    same_length = omega (arith, moved_length, p.same_length);
    agree = λ j. IsPaired-agree j;
    order_once =
        Distinct-append (retain key order) key (Distinct-retain key order (p.order_once))
          (ground (arith, contains-retain key order key, (text_eq_iff key key).1 refl));
    keys_once = p.keys_once;
  }
    where
      IsPaired-agree : (j : Text) → contains (retain key order ++ key ∷ []) j ≡ contains ks j
      IsPaired-agree j = elim (Bool-cases (text_eq key j)) [
        | inl e ↦ ground (
          arith,
          contains-append (retain key order) key j,
          p.agree j,
          e,
          here,
          contains-same order key j e,
        )
        | inr e ↦ ground (
          arith,
          contains-append (retain key order) key j,
          contains-retain key order j,
          p.agree j,
          e,
        )
      ]

      moved_length : length (retain key order ++ key ∷ []) ≡ length order
      moved_length = ground (
        arith,
        length-append (retain key order) (key ∷ []),
        length-retain key order (p.order_once),
        here,
      )

  IsPaired-drop : IsPaired capacity ks (key ∷ order) → IsPaired capacity (retain key ks) order
  unfolding contains
  IsPaired-drop p = record {
    positive = p.positive;
    bounded = omega (arith, p.bounded);
    same_length = ground (
      arith,
      length-retain key ks (p.keys_once),
      p.agree key,
      (text_eq_iff key key).1 refl,
      p.same_length,
    );
    agree = λ j. elim (Bool-cases (text_eq key j)) [
      | inl e ↦
          ground (arith, contains-retain key ks j, e, contains-same order key j e, p.order_once.0)
      | inr e ↦ ground (arith, contains-retain key ks j, p.agree j, e)
    ];
    order_once = p.order_once.1;
    keys_once = Distinct-retain key ks (p.keys_once);
  }

length-keys : (m : Map ImageData) → length (keys m) ≡ length m
length-keys [] = refl
length-keys (e ∷ m) = ap suc (length-keys m)

abbrev pub cache_of : Map ImageData → List Text → ℕ → ImageCache
cache_of m order capacity = record { map = m; order = order; capacity = capacity }

pub new-cache_of :
    (capacity : ℕ) (cache : ImageCache) → new capacity ≡ ok cache → cache_of [] [] capacity ≡ cache
unfolding new
new-cache_of capacity cache h = ground (arith, h)

pub new-IsValid : (capacity : ℕ) (cache : ImageCache) → new capacity ≡ ok cache → IsValid cache
unfolding new contains
new-IsValid capacity cache h = subst IsValid (new-cache_of capacity cache h) (record {
  positive = ground (arith, h);
  bounded = ground arith;
  same_length = refl;
  agree = λ key. refl;
  order_once = tt;
  keys_once = tt;
})

order-cases :
    (order : List Text) → (order ≡ []) ⊎ ((k : Text) × (ks : List Text) × (order ≡ k ∷ ks))
order-cases [] = inl refl
order-cases (k ∷ ks) = inr (k, ks, refl)

module _ (key : Text) (m : Map ImageData) (order : List Text) (capacity : ℕ)
    (v : IsPaired capacity (keys m) order) where
  here-get : contains order key ≡ is_some (get m key)
  here-get = v.agree key ∙ contains-keys m key

  pub lookup-cases :
      ((contains order key ≡ false)
        × (lookup key (cache_of m order capacity) ≡ (none, cache_of m order capacity)))
      ⊎ ((contains order key ≡ true)
          × (lookup key (cache_of m order capacity)
              ≡ (get m key, cache_of m (retain key order ++ key ∷ []) capacity)))
  unfolding lookup get retain
  lookup-cases = elim (Bool-cases (is_some (get m key))) [
    | inl e ↦ inr (
      here-get ∙ e,
      rw (e, lookup) (rw (touch-retain key order (v.order_once) (here-get ∙ e)) refl),
    )
    | inr e ↦ inl (here-get ∙ e, rw (e, lookup) refl)
  ]

  -- What `put` does to a key of the cache, to a new key with room for it, and to one without.
  pub data PutCase (value : ImageData) : Type 0 where
    known :
        contains order key ≡ true
        → put key value (cache_of m order capacity)
          ≡ cache_of (insert key value m) (retain key order ++ key ∷ []) capacity
        → PutCase value
    room :
        contains order key ≡ false
        → suc (length order) ≤ capacity
        → put key value (cache_of m order capacity)
          ≡ cache_of (insert key value m) (order ++ key ∷ []) capacity
        → PutCase value
    full :
        contains order key ≡ false
        → (oldest : Text) (rest : List Text) → order ≡ oldest ∷ rest
        → length order ≡ capacity
        → put key value (cache_of m order capacity)
          ≡ cache_of (insert key value (remove oldest m)) (rest ++ key ∷ []) capacity
        → PutCase value

  pub put-PutCase : (value : ImageData) → PutCase value
  unfolding put make_room evict get retain
  put-PutCase value = elim (Bool-cases (is_some (get m key))) [
    | inl e ↦ known (here-get ∙ e) (rw (e, put) refl)
    | inr e ↦ elim (Bool-cases (leb capacity (length m))) [
      | inr f ↦
          room (here-get ∙ e) (ground (arith, f, length-keys m, v.same_length))
            (rw (e, put) (rw (f) refl))
      | inl f ↦ elim (order-cases order) [
        | inl empty ↦
            absurd (ground (arith, f, length-keys m, v.same_length, v.positive, ap length empty))
        | inr (oldest, rest, split) ↦
            full (here-get ∙ e) oldest rest split
              (ground (arith, f, length-keys m, v.same_length, v.bounded))
              (rw (e, put) (rw (f) (rw split refl)))
      ]
    ]
  ]

keys-known :
    (key : Text) (value : ImageData) (m : Map ImageData)
    → contains (keys m) key ≡ true
    → keys (insert key value m) ≡ keys m
keys-known key value m h = keys-insert key value m ∙ rw h refl

keys-new :
    (key : Text) (value : ImageData) (m : Map ImageData)
    → contains (keys m) key ≡ false
    → keys (insert key value m) ≡ keys m ++ key ∷ []
keys-new key value m h = keys-insert key value m ∙ rw h refl

IsPaired-evict :
    (key : Text) (value : ImageData) (cache : ImageCache)
    → IsValid cache
    → contains cache.order key ≡ false
    → (oldest : Text) (rest : List Text) → cache.order ≡ oldest ∷ rest
    → IsPaired cache.capacity (keys (insert key value (remove oldest cache.map))) (rest ++ key ∷ [])
unfolding contains
IsPaired-evict key value cache v absent oldest rest split =
    let paired : IsPaired cache.capacity (keys cache.map) (oldest ∷ rest) =
      subst (IsPaired cache.capacity (keys cache.map)) split v in
    let dropped = IsPaired-drop cache.capacity (keys cache.map) rest oldest paired in
    let absent_rest : contains rest key ≡ false =
      ground (arith, absent, ap (λ ks. contains ks key) split) in
    rw
      (
        keys-new key value (remove oldest cache.map) (
            ap (λ ks. contains ks key) (keys-remove oldest cache.map)
            ∙ sym (dropped.agree key)
            ∙ absent_rest),
        keys-remove oldest cache.map,
      )
      (IsPaired-append cache.capacity (retain oldest (keys cache.map)) rest key dropped
        (paired.bounded) absent_rest)

pub lookup-IsValid :
    (key : Text) (cache : ImageCache) → IsValid cache → IsValid ((lookup key cache).1)
lookup-IsValid key cache v = elim (lookup-cases key cache.map cache.order cache.capacity v) [
  | inl h ↦ subst (λ (r : Option ImageData × ImageCache). IsValid (r.1)) (sym (h.1)) v
  | inr h ↦
      subst (λ (r : Option ImageData × ImageCache). IsValid (r.1)) (sym (h.1))
        (IsPaired-move cache.capacity (keys cache.map) cache.order key v (h.0))
]

pub put-IsValid :
    (key : Text) (value : ImageData) (cache : ImageCache)
    → IsValid cache
    → IsValid (put key value cache)
put-IsValid key value cache v =
    elim (put-PutCase key cache.map cache.order cache.capacity v value) [
      | known here e ↦ subst IsValid (sym e) (
          rw (keys-known key value cache.map (sym (v.agree key) ∙ here))
            (IsPaired-move cache.capacity (keys cache.map) cache.order key v here))
      | room absent free e ↦ subst IsValid (sym e) (
          rw (keys-new key value cache.map (sym (v.agree key) ∙ absent))
            (IsPaired-append cache.capacity (keys cache.map) cache.order key v free absent))
      | full absent oldest rest split size e ↦
          subst IsValid (sym e) (IsPaired-evict key value cache v absent oldest rest split)
    ]
