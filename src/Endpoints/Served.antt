-- ===== src/Endpoints/Served.antt =====
-- A selection among endpoints that were resolved never panics, src/endpoints.rs.
use bench_cli.Base.{
  ℕ, ◌≤◌, ◌<◌, ◌≡◌, true, Option, is_some, List, [], ◌∷◌, All, All-get_elem?, length, arith, ok,
  get_elem?-lt, lt-get_elem?,
}
use bench_cli.Text.{Text}
use bench_cli.Text.Maps.{get}
use bench_cli.Endpoints.{
  EndpointTuple, ResolvedEndpoints, LoadBalancer, round_robin, least_inflight, Reader, choices,
  resolve_endpoints, endpoint_names_for_display,
}
use bench_cli.Endpoints.Selector.{
  EndpointSelector, with_eject_backoff, pick, min_index, lease, select,
}
use bench_cli.Endpoints.Select.{min_index-IsLeast}
use bench_cli.Endpoints.Leases.{Reach, IsBalanced, Reach-IsBalanced, pick-inflight}
use bench_cli.Endpoints.Load.{IsNamed, resolve_endpoints-IsServed}

min_index_lt :
    (s : EndpointSelector) (now : ℕ → ℕ) (cs : List EndpointTuple)
    → 1 ≤ length cs
    → min_index s now cs < length cs
min_index_lt s now [] h = absurd (omega (arith, h))
min_index_lt s now (c ∷ cs) h =
    let l = min_index-IsLeast s now c cs in lt-get_elem? (c ∷ cs) _ (l.0) (l.1)

pick_lt :
    (strategy : LoadBalancer) (now : ℕ → ℕ) (cs : List EndpointTuple) (s : EndpointSelector)
    → 1 ≤ length cs
    → (pick strategy now cs s).0 < length cs
unfolding pick
pick_lt round_robin now cs s h = omega arith
pick_lt least_inflight now cs s h = min_index_lt s now cs h

lease-named :
    (s : EndpointSelector) (c : EndpointTuple)
    → is_some (get s.inflight (c.2)) ≡ true
    → is_some (lease s c) ≡ true
unfolding lease
lease-named s c h = ground (arith, h)

select-named :
    (E : ResolvedEndpoints) (strategy : LoadBalancer) (now : ℕ → ℕ) (s : EndpointSelector)
    → 1 ≤ length (choices E)
    → All (λ c. is_some (get s.inflight (c.2)) ≡ true) (choices E)
    → is_some (select E strategy now s) ≡ true
unfolding select
select-named E strategy now s h k =
    let p = pick strategy now (choices E) s in
    let at_index = get_elem?-lt (choices E) p.0 (pick_lt strategy now (choices E) s h) in
    rw (at_index.1, select)
      (lease-named p.1 (at_index.0) (
        rw (pick-inflight strategy now (choices E) s) (
          All-get_elem? (λ c. is_some (get s.inflight (c.2)) ≡ true) (choices E) p.0 (at_index.0) k
            (at_index.1))))

named_now :
    (E : ResolvedEndpoints) (backoff : ℕ) (s : EndpointSelector) (ls : List Text)
    (cs : List EndpointTuple)
    → IsBalanced E backoff (s, ls)
    → All (IsNamed (endpoint_names_for_display E)) cs
    → All (λ c. is_some (get s.inflight (c.2)) ≡ true) cs
unfolding with_eject_backoff
named_now E backoff s ls [] h k = tt
named_now E backoff s ls (c ∷ cs) h k =
    (ground (arith, h (c.2), k.0), named_now E backoff s ls cs h k.1)

-- With endpoints that the arguments of the run resolve to, and after any selections, drops and
-- failures to connect, a selection under either strategy returns an endpoint.
pub Reach-select :
    (R : Reader) (u a p : Option Text) (E : ResolvedEndpoints) (backoff : ℕ) (s : EndpointSelector)
    (ls : List Text) (strategy : LoadBalancer) (now : ℕ → ℕ)
    → resolve_endpoints R u a p ≡ ok E
    → Reach E backoff (s, ls)
    → is_some (select E strategy now s) ≡ true
Reach-select R u a p E backoff s ls strategy now e r =
    let served = resolve_endpoints-IsServed R u a p E e in
    select-named E strategy now s served.filled
      (named_now E backoff s ls (choices E) (Reach-IsBalanced E backoff (s, ls) r) served.named)
