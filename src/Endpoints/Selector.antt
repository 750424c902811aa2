-- ===== src/Endpoints/Selector.antt =====
-- `EndpointSelector` of src/endpoints.rs: the counters of requests in flight and the endpoints
-- that are set aside for a while. A lease is the name of the endpoint whose counter it holds. The
-- counters are `usize`s of 64 bits, and what panics is `none`.
use bench_cli.Base.{
  ℕ, suc, ◌+◌, ◌-◌, ◌%◌, ◌^◌, Bool, true, false, Option, none, some, List, [], ◌∷◌, get_elem?,
  map_some, unwrap_or, ltb, if◌then◌else◌, length,
}
use bench_cli.Text.{Text}
use bench_cli.Text.Maps.{Map, get, insert}
use bench_cli.Endpoints.{
  EndpointTuple, ResolvedEndpoints, LoadBalancer, round_robin, least_inflight,
  endpoint_names_for_display, choices,
}

abbrev pub usize : ℕ
usize = 2 ^ 64

pub record EndpointSelector : Type 0 where
  pub next : ℕ
  pub inflight : Map ℕ
  pub ejected_until : Map (Option ℕ)
  pub eject_backoff : ℕ

module _ {V : Type 0} where
  -- The same value under each name; `collect` keeps one entry per key.
  unfoldable pub keyed : V → List (Text × ℕ) → Map V → Map V
  keyed v [] m = m
  keyed v ((name, _) ∷ names) m = keyed v names (insert name v m)

unfoldable pub with_eject_backoff : ResolvedEndpoints → ℕ → EndpointSelector
unfolding keyed
with_eject_backoff endpoints eject_backoff =
    let names = endpoint_names_for_display endpoints in
    record {
      next = 0;
      inflight = keyed 0 names [];
      ejected_until = keyed none names [];
      eject_backoff = eject_backoff;
    }

-- `note_connect_failure`, at the time `now`.
unfoldable pub note_connect_failure : ℕ → Text → EndpointSelector → EndpointSelector
note_connect_failure now name s = elim (get s.ejected_until name) [
  | none ↦ s
  | some _ ↦ record s { ejected_until = insert name (some (now + s.eject_backoff)) s.ejected_until }
]

-- `is_ejected`, at the time `now`.
unfoldable pub is_ejected : EndpointSelector → ℕ → Text → Bool
is_ejected s now name = elim (get s.ejected_until name) [
  | none ↦ false
  | some none ↦ false
  | some (some until) ↦ ltb now until
]

-- The key of `min_by_key`: ejected ones after the others, and then fewer in flight first.
abbrev pub Rank : Type 0
Rank = Bool × ℕ

abbrev pub rank_lt : Rank → Rank → Bool
rank_lt (false, m) (true, n) = true
rank_lt (true, m) (false, n) = false
rank_lt (false, m) (false, n) = ltb m n
rank_lt (true, m) (true, n) = ltb m n

unfoldable pub rank : EndpointSelector → ℕ → Text → Rank
rank s now name = (is_ejected s now name, unwrap_or (get s.inflight name) (usize - 1))

-- `min_by_key` from the choice of index `i` on, with the best one so far: the first of the least.
-- The clock is read for each choice.
unfoldable pub min_from : EndpointSelector → (ℕ → ℕ) → ℕ → ℕ → Rank → List EndpointTuple → ℕ
min_from s now i best least [] = best
min_from s now i best least ((_, _, name) ∷ rest) =
    let r = rank s (now i) name in
    let better = min_from s now (suc i) i r rest in
    let same = min_from s now (suc i) best least rest in if rank_lt r least then better else same

unfoldable pub min_index : EndpointSelector → (ℕ → ℕ) → List EndpointTuple → ℕ
unfolding min_from
min_index s now [] = 0
min_index s now ((_, _, name) ∷ rest) = min_from s now 1 0 (rank s (now 0) name) rest

-- The index and the state after the `match` on the strategy.
unfoldable pub pick :
    LoadBalancer → (ℕ → ℕ) → List EndpointTuple → EndpointSelector → ℕ × EndpointSelector
unfolding min_index
pick round_robin now cs s = (s.next % length cs, record s { next = (s.next + 1) % usize })
pick least_inflight now cs s = (min_index s now cs, s)

-- `fetch_add` on the counter of the choice.
unfoldable pub lease : EndpointSelector → EndpointTuple → Option (EndpointTuple × EndpointSelector)
lease s choice =
    map_some (get s.inflight (choice.2))
      (λ n. (choice, record s { inflight = insert (choice.2) ((n + 1) % usize) s.inflight }))

-- `select`
unfoldable pub select :
    ResolvedEndpoints
    → LoadBalancer
    → (ℕ → ℕ)
    → EndpointSelector
    → Option (EndpointTuple × EndpointSelector)
unfolding pick lease
select endpoints strategy now s =
    let cs = choices endpoints in
    let p = pick strategy now cs s in
    elim (get_elem? cs p.0) [ none ↦ none | some choice ↦ lease p.1 choice ]

-- `EndpointLease::drop`
unfoldable pub drop : Text → EndpointSelector → EndpointSelector
drop name s = elim (get s.inflight name) [
  | none ↦ s
  | some n ↦ record s { inflight = insert name ((n + (usize - 1)) % usize) s.inflight }
]
