-- ===== src/Vlm.antt =====
-- The images of a vision request, src/vlm.rs: the bounded cache of loaded images.
pub mod Keys
pub mod Paired
pub mod Recency
pub mod Lru
use bench_cli.Base.{
  ℕ, zero, suc, ◌+◌, leb, Bool, true, false, Option, none, some, map_some, and_then, List, [], ◌∷◌,
  ◌++◌, length, Result, ok, err, if◌then◌else◌, is_some, ◌==◌,
}
use bench_cli.Text.{Text, codes, text_eq}
use bench_cli.Text.Maps.{Map, get, insert}

-- `ImageData`
pub record ImageData : Type 0 where
  pub base64_data : Text
  pub mime_type : Text
  pub width : ℕ
  pub height : ℕ
  pub size_bytes : ℕ
  pub url : Text

-- `ImageCache`
pub record ImageCache : Type 0 where
  pub map : Map ImageData
  pub order : List Text
  pub capacity : ℕ

-- `ImageCache::new`
unfoldable pub new : ℕ → Result ImageCache Text
new capacity =
    if capacity == 0
    then err (codes "image_cache_size must be >= 1")
    else ok (record { map = []; order = []; capacity = capacity })

-- `order.iter().position(|k| k == key)`
unfoldable pub position : Text → List Text → Option ℕ
position key [] = none
position key (k ∷ ks) =
    let later = map_some (position key ks) (λ i. suc i) in if text_eq k key then some 0 else later

-- `VecDeque::remove`
unfoldable pub remove_at : ℕ → List Text → Option (Text × List Text)
remove_at i [] = none
remove_at zero (k ∷ ks) = some (k, ks)
remove_at (suc i) (k ∷ ks) = map_some (remove_at i ks) (λ (r : Text × List Text). (r.0, k ∷ r.1))

-- `order.retain(|k| k != &key)`
unfoldable pub retain : Text → List Text → List Text
retain key [] = []
retain key (k ∷ ks) = let rest = retain key ks in if text_eq k key then rest else k ∷ rest

-- `HashMap::remove`
unfoldable pub remove : Text → Map ImageData → Map ImageData
remove key [] = []
remove key ((k, v) ∷ m) = let rest = remove key m in if text_eq k key then rest else (k, v) ∷ rest

-- The order after a hit: the key goes to the back.
unfoldable pub touch : Text → List Text → List Text
unfolding position remove_at
touch key order = elim (and_then (position key order) (λ pos. remove_at pos order)) [
  | none ↦ order
  | some removed ↦ removed.1 ++ removed.0 ∷ []
]

-- `ImageCache::get`
unfoldable pub lookup : Text → ImageCache → Option ImageData × ImageCache
unfolding touch
lookup key cache =
    if is_some (get cache.map key)
    then (
      get cache.map key,
      record { map = cache.map; order = touch key cache.order; capacity = cache.capacity },
    )
    else (none, cache)

-- The oldest key, taken off the order and the map.
unfoldable pub evict : ImageCache → ImageCache
unfolding remove
evict cache = elim cache.order [
  | [] ↦ cache
  | evicted ∷ order ↦ record {
    map = remove evicted cache.map;
    order = order;
    capacity = cache.capacity;
  }
]

-- The room that `put` makes for a key.
unfoldable pub make_room : Text → ImageCache → ImageCache
unfolding evict retain
make_room key cache =
    let moved : ImageCache = record {
      map = cache.map;
      order = retain key cache.order;
      capacity = cache.capacity;
    } in
    if is_some (get cache.map key)
    then moved
    else if leb cache.capacity (length cache.map)
    then evict cache
    else cache

-- `ImageCache::put`
unfoldable pub put : Text → ImageData → ImageCache → ImageCache
unfolding make_room
put key value cache =
    let room = make_room key cache in
    record {
      map = insert key value room.map;
      order = room.order ++ key ∷ [];
      capacity = room.capacity;
    }
