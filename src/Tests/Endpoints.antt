-- ===== src/Tests/Endpoints.antt =====
-- Two endpoints that are read from a file, and selections among them.
use bench_cli.Base.{ℕ, ◌%◌, ◌≡◌, refl, true, none, some, is_some, [], ◌∷◌, ok, map_some, get_elem?}
use bench_cli.Text.{
  codes, text_eq, is_empty, trim, trim_start, trim_end, keep_unless_blank, is_whitespace,
  strip_prefix,
}
use bench_cli.Text.Scan.{span}
use bench_cli.Text.Maps.{get, insert}
use bench_cli.Endpoints.{
  EndpointTuple, ResolvedEndpoints, multi, least_inflight, choices, check_parsed,
  validate_endpoint_url, name_of, check_config, hostname_from_url, load_loop, load_configs,
  load_endpoints_file, resolve_endpoints, endpoint_names_for_display,
}
use bench_cli.Endpoints.Selector.{
  EndpointSelector, keyed, with_eject_backoff, note_connect_failure, is_ejected, rank, min_from,
  min_index, pick, lease, select, usize,
}
use bench_cli.Endpoints.Select.{IsLeast, select-IsLeast}
use bench_cli.Endpoints.Leases.{
  selected, failed, Reach, begin, and_then_step, count, Reach-inflight,
}
use bench_cli.Endpoints.Served.{Reach-select}
use bench_cli.Tests.Parameters.{reader}

abbrev first_endpoint : EndpointTuple
first_endpoint = (codes "http://a/v1", codes "k", codes "a")

abbrev other_endpoint : EndpointTuple
other_endpoint = (codes "http://b/v1", codes "k", codes "b")

abbrev endpoints : ResolvedEndpoints
endpoints =
    multi (first_endpoint ∷ other_endpoint ∷ other_endpoint ∷ [])
      ((codes "a", 1) ∷ (codes "b", 2) ∷ [])

endpoints-resolved : resolve_endpoints reader none none (some (codes "f")) ≡ ok endpoints
unfolding resolve_endpoints load_endpoints_file load_configs load_loop check_config
    validate_endpoint_url check_parsed name_of hostname_from_url span strip_prefix trim trim_start
    trim_end keep_unless_blank is_whitespace is_empty text_eq
endpoints-resolved = refl

abbrev at_start : EndpointSelector
at_start = with_eject_backoff endpoints 5

abbrev after_one : EndpointSelector
after_one = record {
  next = 0;
  inflight = (codes "a", 1) ∷ (codes "b", 0) ∷ [];
  ejected_until = (codes "a", none) ∷ (codes "b", none) ∷ [];
  eject_backoff = 5;
}

first-selected :
    select endpoints least_inflight (λ _. 0) at_start ≡ some (first_endpoint, after_one)
unfolding select lease pick min_index min_from rank is_ejected with_eject_backoff keyed get insert
    choices endpoint_names_for_display text_eq
first-selected = refl

-- After a selection, and a failure to connect to the other endpoint.
abbrev later_on : EndpointSelector
later_on = note_connect_failure 3 (codes "b") after_one

later_on-Reach : Reach endpoints 5 (later_on, codes "a" ∷ [])
later_on-Reach =
    and_then_step _ _
      (and_then_step _ _ begin
        (selected least_inflight (λ _. 0) at_start after_one [] first_endpoint first-selected))
      (failed after_one 3 (codes "b") (codes "a" ∷ []))

Reach-inflight_example :
    get later_on.inflight (codes "a")
    ≡ map_some (get at_start.inflight (codes "a")) (λ _. count (codes "a") (codes "a" ∷ []) % usize)
Reach-inflight_example =
    Reach-inflight endpoints 5 later_on (codes "a" ∷ []) (codes "a") later_on-Reach

Reach-select_example : is_some (select endpoints least_inflight (λ _. 4) later_on) ≡ true
Reach-select_example =
    Reach-select reader none none (some (codes "f")) endpoints 5 later_on (codes "a" ∷ [])
      least_inflight (λ _. 4) endpoints-resolved later_on-Reach

select-IsLeast_example :
    (i : ℕ) × (get_elem? (choices endpoints) i ≡ some first_endpoint)
    × IsLeast at_start (λ _. 0) 0 (choices endpoints) (rank at_start 0 (codes "a"))
select-IsLeast_example =
    select-IsLeast endpoints (λ _. 0) at_start after_one first_endpoint first-selected
