-- ===== src/Endpoints/Load.antt =====
-- The endpoints that are loaded are served: a selection among them never panics, src/endpoints.rs.
use bench_cli.Base.{
  ℕ, zero, suc, ◌≤◌, ◌≡◌, refl, ◌∙◌, true, inl, inr, Option-cases, Option, none, some, is_some,
  List, [], ◌∷◌, ◌++◌, All, All-append, replicate, length, arith, ok, length-append,
  length-replicate, Result-cases, subst,
}
use bench_cli.Text.{Text, text_eq_iff, trim}
use bench_cli.Text.Maps.{Map, get, insert, get-insert}
use bench_cli.Endpoints.{
  EndpointConfig, EndpointTuple, ResolvedEndpoints, single, multi, Reader, choices, check_config,
  load_loop, load_configs, load_endpoints_file, resolve_endpoints, name_of, weight_of,
  endpoint_names_for_display, validate_endpoint_url, hostname_from_url,
}
use bench_cli.Endpoints.Selector.{keyed}

abbrev pub counters : List (Text × ℕ) → Map ℕ → Map ℕ
counters = keyed 0

-- The name has a counter.
abbrev pub IsNamed : List (Text × ℕ) → EndpointTuple → Type 0
IsNamed names c = is_some (get (counters names []) (c.2)) ≡ true

-- There is a choice, and each has a counter.
pub record IsServed (E : ResolvedEndpoints) : Type 0 where
  pub filled : 1 ≤ length (choices E)
  pub named : All (IsNamed (endpoint_names_for_display E)) (choices E)

insert-keeps :
    (k : Text) (m : Map ℕ) (name : Text)
    → is_some (get m name) ≡ true
    → is_some (get (insert k 0 m) name) ≡ true
insert-keeps k m name h = rw (get-insert k 0 m name) (ground (arith, h))

insert-own : (k : Text) (m : Map ℕ) → is_some (get (insert k 0 m) k) ≡ true
insert-own k m = rw (get-insert k 0 m k, (text_eq_iff k k).1 refl) refl

-- A name that has an entry keeps it, and each name gets one.
keyed-append : (a b : List (Text × ℕ)) (m : Map ℕ) → counters (a ++ b) m ≡ counters b (counters a m)
unfolding keyed
keyed-append [] b m = refl
keyed-append ((k, _) ∷ a) b m = keyed-append a b (insert k 0 m)

keyed-last :
    (a : List (Text × ℕ)) (k : Text) (w : ℕ)
    → counters (a ++ (k, w) ∷ []) [] ≡ insert k 0 (counters a [])
keyed-last a k w = keyed-append a ((k, w) ∷ []) [] ∙ unfold keyed in refl

IsNamed-more :
    (names : List (Text × ℕ)) (k : Text) (w : ℕ) (cs : List EndpointTuple)
    → All (IsNamed names) cs
    → All (IsNamed (names ++ (k, w) ∷ [])) cs
IsNamed-more names k w [] h = tt
IsNamed-more names k w (c ∷ cs) h = (
  rw (keyed-last names k w) (insert-keeps k (counters names []) (c.2) (h.0)),
  IsNamed-more names k w cs h.1,
)

IsNamed-copies :
    (names : List (Text × ℕ)) (k : Text) (w : ℕ) (u a : Text) (n : ℕ)
    → All (IsNamed (names ++ (k, w) ∷ [])) (replicate n (u, a, k))
IsNamed-copies names k w u a zero = tt
IsNamed-copies names k w u a (suc n) =
    (rw (keyed-last names k w) (insert-own k (counters names [])), IsNamed-copies names k w u a n)

module _ (R : Reader) where
  copies_of : EndpointConfig → List EndpointTuple
  copies_of c = replicate (weight_of R c) (trim c.url, trim c.api_key, name_of R c (trim c.url))

  load_loop-next :
      (c : EndpointConfig) (cs : List EndpointConfig) (weighted : List EndpointTuple)
      (names : List (Text × ℕ)) (out : List EndpointTuple × List (Text × ℕ))
      → load_loop R (c ∷ cs) weighted names ≡ ok out
      → load_loop R cs
          (weighted ++ copies_of c)
          (names ++ (name_of R c (trim c.url), weight_of R c) ∷ [])
        ≡ ok out
  unfolding load_loop copies_of
  load_loop-next c cs weighted names out e = elim (Result-cases (check_config R c)) [
    | inl (x, bad) ↦ absurd (ground (arith, bad, e))
    | inr (x, good) ↦ ground (arith, good, e)
  ]

  IsNamed-copies_of :
      (names : List (Text × ℕ)) (c : EndpointConfig)
      → All (IsNamed (names ++ (name_of R c (trim c.url), weight_of R c) ∷ [])) (copies_of c)
  unfolding copies_of
  IsNamed-copies_of names c =
      IsNamed-copies names (name_of R c (trim c.url)) (weight_of R c) (trim c.url) (trim c.api_key)
        (weight_of R c)

  length-copies_of : (c : EndpointConfig) → 1 ≤ length (copies_of c)
  unfolding copies_of
  length-copies_of c = omega (
    arith,
    length-replicate {A = EndpointTuple} (weight_of R c)
        (trim c.url, trim c.api_key, name_of R c (trim c.url)),
  )

  load_loop-IsNamed :
      (cs : List EndpointConfig) (weighted : List EndpointTuple) (names : List (Text × ℕ))
      (out : List EndpointTuple × List (Text × ℕ))
      → All (IsNamed names) weighted
      → load_loop R cs weighted names ≡ ok out
      → All (IsNamed (out.1)) (out.0) × (length weighted ≤ length (out.0))
  load_loop-IsNamed [] weighted names out h e = unfold load_loop in ground (arith, h, e)
  load_loop-IsNamed (c ∷ cs) weighted names out h e =
      let k = name_of R c (trim c.url) in
      let w = weight_of R c in
      let copies = copies_of c in
      let on = names ++ (k, w) ∷ [] in
      let r =
        load_loop-IsNamed cs (weighted ++ copies) on out
          (All-append (IsNamed on) weighted copies (IsNamed-more names k w weighted h)
            (IsNamed-copies_of names c))
          (load_loop-next c cs weighted names out e) in
      (r.0, omega (arith, r.1, length-append weighted copies))

  load_configs-served :
      (cs : List EndpointConfig) (out : List EndpointTuple × List (Text × ℕ))
      → load_configs R cs ≡ ok out
      → All (IsNamed (out.1)) (out.0) × (1 ≤ length (out.0))
  unfolding load_configs
  load_configs-served [] out e = cc
  load_configs-served (c ∷ cs) out e =
      let r =
        load_loop-IsNamed cs (copies_of c) ((name_of R c (trim c.url), weight_of R c) ∷ []) out
          (IsNamed-copies_of [] c) (load_loop-next c cs [] [] out e) in
      (r.0, omega (arith, r.1, length-copies_of c))

  load_endpoints_file-served :
      (path : Text) (out : List EndpointTuple × List (Text × ℕ))
      → load_endpoints_file R path ≡ ok out
      → All (IsNamed (out.1)) (out.0) × (1 ≤ length (out.0))
  unfolding load_endpoints_file
  load_endpoints_file-served path out e = elim (Option-cases (R.read_file path)) [
    | inl h ↦ absurd (ground (arith, h, e))
    | inr (contents, h) ↦ elim (Option-cases (R.parse_yaml contents)) [
      | inl k ↦ absurd (ground (arith, h, k, e))
      | inr (configs, k) ↦ load_configs-served configs out (ground (arith, h, k, e))
    ]
  ]

  single-IsServed : (u a k : Text) → IsServed (single u a k)
  unfolding choices endpoint_names_for_display
  single-IsServed u a k = record {
    filled = omega arith;
    named = (unfold keyed in insert-own k [], tt);
  }

  multi-IsServed :
      (weighted : List EndpointTuple) (names : List (Text × ℕ))
      → 1 ≤ length weighted
      → All (IsNamed names) weighted
      → IsServed (multi weighted names)
  unfolding choices endpoint_names_for_display
  multi-IsServed weighted names h k = record { filled = h; named = k }

  -- Endpoints that are resolved have a choice, and each of their choices has a counter.
  pub resolve_endpoints-IsServed :
      (u a p : Option Text) (E : ResolvedEndpoints) → resolve_endpoints R u a p ≡ ok E → IsServed E
  unfolding resolve_endpoints
  resolve_endpoints-IsServed (some u) (some a) none E e =
      elim (Result-cases (validate_endpoint_url R u)) [
        | inl (x, bad) ↦ absurd (ground (arith, bad, e))
        | inr (x, good) ↦
            subst IsServed (ground (arith, good, e)) (single-IsServed u a (hostname_from_url u))
      ]
  resolve_endpoints-IsServed none none (some path) E e =
      elim (Result-cases (load_endpoints_file R path)) [
        | inl (x, bad) ↦ absurd (ground (arith, bad, e))
        | inr ((weighted, names), good) ↦
            (let r = load_endpoints_file-served path (weighted, names) good in
              subst IsServed (ground (arith, good, e)) (multi-IsServed weighted names (r.1) (r.0)))
      ]
  resolve_endpoints-IsServed none none none E e = cc
  resolve_endpoints-IsServed (some u) (some a) (some path) E e = cc
  resolve_endpoints-IsServed (some u) none none E e = cc
  resolve_endpoints-IsServed (some u) none (some path) E e = cc
  resolve_endpoints-IsServed none (some a) none E e = cc
  resolve_endpoints-IsServed none (some a) (some path) E e = cc
